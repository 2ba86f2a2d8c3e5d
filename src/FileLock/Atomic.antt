-- ===== src/FileLock/Atomic.antt =====
-- src/file-lock.ts: what a reader finds after `atomicWriteFileSync`.
use xrplink.Dict
use xrplink.Dict.{Dict}
use xrplink.Store.{returned, threw}
use xrplink.FileLock.{SystemCalls, atomic_write}
use xrplink.Prelude.{
  String, ◌≡◌, ◌≢◌, inl, inr, Bool, true, false, some, arith, ◌==◌, eq_iff, if◌then◌else◌,
  Option-cases,
}

removed :
    (temp text other : String) (files : Dict String)
    → other ≢ temp
    → Dict.get (Dict.remove (Dict.set files temp text) temp) other ≡ Dict.get files other
removed temp text other files ne = ground (
  arith,
  eq_iff temp other,
  Dict.get-remove (Dict.set files temp text) temp other,
  Dict.get-set files temp other text,
)

removed_or_left :
    (left : Bool) (temp text other : String) (files : Dict String)
    → other ≢ temp
    → Dict.get
        (if left then Dict.set files temp text else Dict.remove (Dict.set files temp text) temp)
        other
      ≡ Dict.get files other
removed_or_left true temp text other files ne =
    ground (arith, eq_iff temp other, Dict.get-set files temp other text)
removed_or_left false temp text other files ne = removed temp text other files ne

-- However the system calls go, the file at a path other than the temporary one holds what it held, or,
-- if it is the file to be written and the call returns, the whole of the new data; a call that throws
-- leaves it alone.
pub atomic_write-get :
    (how : SystemCalls) (temp path text other : String) (files : Dict String)
    → other ≢ temp
    → Dict.get (atomic_write how temp path text files).1 other
      ≡ (elim (atomic_write how temp path text files).0 [
        | returned u ↦ if path == other then some text else Dict.get files other
        | threw m ↦ Dict.get files other
      ])
unfolding atomic_write
atomic_write-get how temp path text other files ne =
    let unlinked = λ (x : String). removed_or_left how.unlink_fails temp x other files ne in
    elim (Option-cases how.write_fails) [
      | inl e ↦ elim (Option-cases how.rename_fails) [
        | inl f ↦
            let placed =
              Dict.get-set (Dict.remove (Dict.set files temp text) temp) path other text in
            rw (e, f) (ground (arith, placed, removed temp text other files ne))
        | inr (m, f) ↦ rw (e, f) (unlinked text)
      ]
      | inr ((begun, m), e) ↦ rw e (unlinked begun)
    ]
