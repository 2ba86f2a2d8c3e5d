-- ===== src/Migration/Reads.antt =====
-- scripts/migrate-to-postgres.ts: what the server reads of the attestations that were copied.
use mathlib.Core.Path.{subst}
use xrplink.Dict
use xrplink.Dict.{Dict}
use xrplink.Store.{outcomes, Attestation, Outcome, returned, threw}
use xrplink.Store.Load.{parsed}
use xrplink.Store.Load.Copies.{IsDistinct}
use xrplink.Postgres.{ensure_tables, init_pool}
use xrplink.Postgres.Attestations.{get_attestation, row_to_attestation}
use xrplink.Migration.{
  copy_users, copy_webhooks, create_tables, copy_api_keys, then_file, main, copy_files, Stats,
  Sources, Target, upsert, copy_rows, copy_file, copy_attestations, insert_attestation,
  row_of_attestation, counted_one,
}
use xrplink.Migration.Lost.{then_file-keeps, server_on}
use xrplink.Prelude.{
  ℕ, String, ◌≡◌, refl, sym, ap, ◌∙◌, inl, inr, false, Option, none, some, List, [], ◌∷◌, arith,
  ◌==◌, eq_iff, if◌then◌else◌, Option-cases, or_else, truthy, find, any, All, concat,
}

abbrev row_at : String → List Attestation → Option Attestation
row_at id rows = find (λ row. row.id == id) rows

-- Every entry stands under its own id.
abbrev pub IsKeyed : Dict Attestation → Type 0
IsKeyed entries = All (λ e. e.1.id ≡ e.0) entries

abbrev IsNew : List Attestation → Dict Attestation → Type 0
IsNew rows entries = All (λ e. row_at e.0 rows ≡ none) entries

row_at-snoc :
    (id : String) (rows : List Attestation) (a : Attestation)
    → row_at id (concat rows (a ∷ []))
      ≡ or_else (row_at id rows) (if a.id == id then some a else none)
row_at-snoc id [] a = ground arith
row_at-snoc id (row ∷ rows) a = ground (arith, row_at-snoc id rows a)

any-of_no_row :
    (id : String) (rows : List Attestation)
    → row_at id rows ≡ none
    → any (λ r. r.id == id) rows ≡ false
any-of_no_row id [] e = refl
any-of_no_row id (row ∷ rows) e = ground (arith, any-of_no_row id rows)

-- An insert of a new row that works puts it at the end.
insert_attestation-new :
    (a : Attestation) (rows next : List Attestation)
    → row_at a.id rows ≡ none
    → insert_attestation a rows ≡ returned next
    → next ≡ concat rows (row_of_attestation a ∷ [])
unfolding insert_attestation upsert
insert_attestation-new a rows next new e = ground (arith, any-of_no_row a.id rows)

IsNew-snoc :
    (entries : Dict Attestation) (k : String) (rows : List Attestation) (a : Attestation)
    → a.id ≡ k
    → Dict.get entries k ≡ none
    → IsNew rows entries
    → IsNew (concat rows (row_of_attestation a ∷ [])) entries
unfolding Dict.get
IsNew-snoc [] k rows a e absent_ new = tt
IsNew-snoc ((j, b) ∷ entries) k rows a e absent_ new = (
  ground (arith, row_at-snoc j rows (row_of_attestation a), eq_iff j k, eq_iff a.id j),
  IsNew-snoc entries k rows a e (ground (arith, eq_iff j k)) new.1,
)

counted_one-returned :
    (o : Outcome ℕ) (n : ℕ) → counted_one o ≡ returned n → (m : ℕ) × (o ≡ returned m)
counted_one-returned (threw m) n e = cc
counted_one-returned (returned m) n e = (m, refl)

copy_rows-step :
    (k : String) (a : Attestation) (entries : Dict Attestation) (rows next : List Attestation)
    → insert_attestation a rows ≡ returned next
    → copy_rows insert_attestation ((k, a) ∷ entries) rows ≡ (
      counted_one (copy_rows insert_attestation entries next).0,
      (copy_rows insert_attestation entries next).1,
    )
unfolding copy_rows
copy_rows-step k a entries rows next f = rw (f, copy_rows) refl

copied :
    (entries : Dict Attestation) (rows : List Attestation) (n : ℕ) (id : String)
    → IsKeyed entries
    → IsDistinct entries
    → IsNew rows entries
    → (copy_rows insert_attestation entries rows).0 ≡ returned n
    → row_at id (copy_rows insert_attestation entries rows).1 ≡ (elim (Dict.get entries id) [
      | none ↦ row_at id rows
      | some a ↦ some (row_of_attestation a)
    ])
unfolding copy_rows Dict.get
copied [] rows n id keyed distinct new e = refl
copied ((k, a) ∷ entries) rows n id keyed distinct new e =
    elim (outcomes (insert_attestation a rows)) [
      | inl (m, f) ↦ absurd (ground (arith, f))
      | inr (next, f) ↦
          let own : row_at a.id rows ≡ none = ground (arith, new.0, keyed.0) in
          let placed = insert_attestation-new a rows next own f in
          let stepped = copy_rows-step k a entries rows next f in
          let (m, rest) = counted_one-returned _ n (sym (ap (λ x. x.0) stepped) ∙ e) in
          let fresh : IsNew next entries =
            subst (λ l. IsNew l entries) (sym placed)
              (IsNew-snoc entries k rows a keyed.0 distinct.0 new.1) in
          let ih = copied entries next m id keyed.1 distinct.1 fresh rest in
          let found = ap (row_at id) placed ∙ row_at-snoc id rows (row_of_attestation a) in
          let last = ap (λ x. row_at id x.1) stepped in
          ground (arith, last, ih, found, eq_iff k id, eq_iff a.id id, distinct.0, keyed.0, new.0)
    ]

IsNew-nil : (entries : Dict Attestation) → IsNew [] entries
IsNew-nil [] = tt
IsNew-nil (e ∷ entries) = (refl, IsNew-nil entries)

-- A script that ends well has copied the attestations, and the other files leave them alone.
main-copies :
    (url connection : Option String) (files : Sources) (t : Target) (stats : Stats)
    → (main url connection files t).0 ≡ returned stats
    → main url connection files t ≡ copy_files files t
unfolding main create_tables
main-copies url connection files t stats e = elim (Option-cases (truthy url)) [
  | inl none_set ↦ absurd (ground (arith, none_set))
  | inr (u, set) ↦ elim (Option-cases connection) [
    | inl up ↦ rw (set, up, main) refl
    | inr (m, down) ↦ absurd (ground (arith, set, down))
  ]
]

then_file-first :
    (x : Outcome ℕ × Target) (k : ℕ → Target → Outcome Stats × Target) (stats : Stats)
    → (then_file x k).0 ≡ returned stats
    → (n : ℕ) × (x.0 ≡ returned n)
then_file-first (threw m, t) k stats e = cc
then_file-first (returned n, t) k stats e = (n, refl)

copy_files-attestations :
    (files : Sources) (t : Target)
    → (copy_files files t).1.database.attestations
      ≡ (copy_attestations files t).1.database.attestations
unfolding copy_files copy_api_keys copy_webhooks copy_users
copy_files-attestations files t =
    let kept = (copy_attestations files t).1.database.attestations in
    let Q : Target → Type 0 = λ u. u.database.attestations ≡ kept in
    then_file-keeps Q (copy_attestations files t) _ refl (λ a t1 o1.
      then_file-keeps Q (copy_api_keys files t1) _ o1 (λ k t2 o2.
        then_file-keeps Q (copy_webhooks files t2) _ o2
          (λ w t3 o3. then_file-keeps Q (copy_users files t3) _ o3 (λ u t4 o4. o4))))

-- When the script ends well on a file whose entries stand under their own ids, each once, and a table
-- of attestations that was empty, the server reads under every id what the file has there, but for the
-- owner, which is gone; an id that the file lacks is not found.
pub main-get_attestation :
    (url connection : Option String) (files : Sources) (t : Target) (stats : Stats)
    (entries : Dict Attestation) (id : String)
    → files.attestations ≡ parsed entries
    → IsKeyed entries
    → IsDistinct entries
    → t.database.attestations ≡ []
    → (main url connection files t).0 ≡ returned stats
    → get_attestation id (init_pool none (server_on (main url connection files t).1)).1
      ≡ (elim (Dict.get entries id) [
        | none ↦ none
        | some a ↦ some (record a { owner_key_id = none })
      ])
unfolding get_attestation row_to_attestation init_pool ensure_tables copy_attestations copy_files
    copy_file
main-get_attestation url connection files t stats entries id file keyed distinct empty_ e =
    let copies = main-copies url connection files t stats e in
    let ended : (copy_files files t).0 ≡ returned stats = sym (ap (λ x. x.0) copies) ∙ e in
    let first = then_file-first (copy_attestations files t) _ stats ended in
    let insert_all = λ (rows : List Attestation). copy_rows insert_attestation entries rows in
    let whole =
      ap (λ f. copy_file insert_attestation f t.database.attestations) file
      ∙ ap insert_all empty_ in
    let counted = sym (ap (λ x. x.0) whole) ∙ first.1 in
    let held =
      ap (λ x. row_at id x.1.database.attestations) copies
      ∙ ap (row_at id) (copy_files-attestations files t ∙ ap (λ x. x.1) whole)
      ∙ copied entries [] first.0 id keyed distinct (IsNew-nil entries) counted in
    ground (arith, held)
