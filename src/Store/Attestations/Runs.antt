-- ===== src/Store/Attestations/Runs.antt =====
-- src/store.ts: the index by transaction hash over runs of the operations on attestations.
use xrplink.Dict
use xrplink.Store.{Store, Write}
use xrplink.Store.Attestations.{Updates, create_attestation, update_attestation}
use xrplink.Store.Attestations.Index.{
  IsIndexed, create_attestation-IsIndexed, update_attestation-IsIndexed,
}
use xrplink.Prelude.{ℕ, String, ◌≡◌, ◌≢◌, Option, none, List, [], ◌∷◌}

pub data AttestationCall : Type 0 where
  creating : Write → ℕ → String → String → Option String → AttestationCall
  updating : Write → ℕ → String → Updates → AttestationCall

abbrev pub called : AttestationCall → Store → Store
called (creating w now id tx_hash owner) s = (create_attestation w now id tx_hash owner s).1
called (updating w now id u) s = (update_attestation w now id u s).1

abbrev pub run : List AttestationCall → Store → Store
run [] s = s
run (call ∷ calls) s = run calls (called call s)

-- A new identifier is not empty, and no row has it.
abbrev IsNew : AttestationCall → Store → Type 0
IsNew (creating w now id tx_hash owner) s = (id ≢ "") × (Dict.get s.attestations id ≡ none)
IsNew (updating w now id u) s = Unit

abbrev pub AreNew : List AttestationCall → Store → Type 0
AreNew [] s = Unit
AreNew (call ∷ calls) s = IsNew call s × AreNew calls (called call s)

called-IsIndexed :
    (call : AttestationCall) (s : Store)
    → IsNew call s
    → IsIndexed s.data_in_memory
    → IsIndexed (called call s).data_in_memory
called-IsIndexed (creating w now id tx_hash owner) s new v =
    create_attestation-IsIndexed w now id tx_hash owner s v new.0 new.1
called-IsIndexed (updating w now id u) s new v = update_attestation-IsIndexed w now id u s v

-- Whatever attestations are created and updated, in whatever order and whichever writes throw, the
-- index by hash and the table agree, if they did at the start and new identifiers are new: each entry
-- names a row of its hash, and each row stands in the index.
pub run-IsIndexed :
    (calls : List AttestationCall) (s : Store)
    → AreNew calls s
    → IsIndexed s.data_in_memory
    → IsIndexed (run calls s).data_in_memory
run-IsIndexed [] s new v = v
run-IsIndexed (call ∷ calls) s new v =
    run-IsIndexed calls (called call s) new.1 (called-IsIndexed call s new.0 v)
