-- ===== src/Store/Attestations/Index.antt =====
-- src/store.ts: the index by transaction hash agrees with the table, after every operation.
use xrplink.Prelude.{
  refl, ap, ◌∙◌, ℕ, String, ◌≡◌, ◌≢◌, inl, inr, Option, none, some, arith, eq_iff, Option-cases,
  truthy,
}
use xrplink.Prelude.Text.{lower}
use xrplink.Dict
use xrplink.Dict.{get-set}
use xrplink.Store.{
  commit-eq-returned, returned, PersistedData, data_in_memory-commit, Store, Write, Attestation,
}
use xrplink.Store.Attestations.{
  update_attestation, with_updates, Updates, get_by_tx_hash, new_attestation, create_attestation,
}

-- Every entry of the index names a row of that hash, and every row stands in the index.
pub record IsIndexed (d : PersistedData) : Type 0 where
  pub present :
      (h id : String) → Dict.get d.tx_hash_index h ≡ some id → Dict.get d.attestations id ≢ none
  pub named : (h id : String) → Dict.get d.tx_hash_index h ≡ some id → id ≢ ""
  pub hashed :
      (h id : String) (a : Attestation)
      → Dict.get d.tx_hash_index h ≡ some id
      → Dict.get d.attestations id ≡ some a
      → lower a.tx_hash ≡ h
  pub listed :
      (id : String) (a : Attestation)
      → Dict.get d.attestations id ≡ some a
      → Dict.get d.tx_hash_index (lower a.tx_hash) ≡ some id

module _ (d : PersistedData) (id : String) (a : Attestation) where
  abbrev inserted : PersistedData
  inserted = record d {
    attestations = Dict.set d.attestations id a;
    tx_hash_index = Dict.set d.tx_hash_index (lower a.tx_hash) id;
  }

  inserted-IsIndexed :
      IsIndexed d
      → id ≢ ""
      → Dict.get d.attestations id ≡ none
      → Dict.get d.tx_hash_index (lower a.tx_hash) ≡ none
      → IsIndexed inserted
  inserted-IsIndexed v h fresh new = record {
    present = λ g i e. ground (
      arith,
      get-set d.attestations id i a,
      get-set d.tx_hash_index (lower a.tx_hash) g id,
      eq_iff id i,
      v.present g i,
    );
    named = λ g i e. ground (arith, get-set d.tx_hash_index (lower a.tx_hash) g id, v.named g i);
    hashed = λ g i b e f. ground (
      arith,
      get-set d.attestations id i a,
      get-set d.tx_hash_index (lower a.tx_hash) g id,
      eq_iff id i,
      eq_iff (lower a.tx_hash) g,
      v.hashed g i b,
      v.present g i,
    );
    listed = λ i b e. ground (
      arith,
      get-set d.attestations id i a,
      get-set d.tx_hash_index (lower a.tx_hash) (lower b.tx_hash) id,
      eq_iff id i,
      eq_iff (lower a.tx_hash) (lower b.tx_hash),
      v.listed i b,
    );
  }

  -- A row that is replaced by one of the same hash leaves the index right.
  abbrev replaced_row : PersistedData
  replaced_row = record d { attestations = Dict.set d.attestations id a }

  replaced_row-IsIndexed :
      (b : Attestation)
      → IsIndexed d
      → Dict.get d.attestations id ≡ some b
      → b.tx_hash ≡ a.tx_hash
      → IsIndexed replaced_row
  replaced_row-IsIndexed b v found same = record {
    present = λ g i e. ground (arith, get-set d.attestations id i a, v.present g i);
    named = v.named;
    hashed = λ g i c e f.
        ground (arith, get-set d.attestations id i a, eq_iff id i, v.hashed g i c, v.hashed g i b);
    listed = λ i c e.
        ground (arith, get-set d.attestations id i a, eq_iff id i, v.listed i c, v.listed i b);
  }

-- An index entry is a text that a condition takes for present.
truthy_index :
    (d : PersistedData) (h : String)
    → IsIndexed d
    → truthy (Dict.get d.tx_hash_index h) ≡ Dict.get d.tx_hash_index h
truthy_index d h v = elim (Option-cases (Dict.get d.tx_hash_index h)) [
  | inl m ↦ rw (m, truthy)
  | inr (id, found) ↦ rw (found, truthy) (ground (arith, eq_iff id "", v.named h id))
]

module _ (w : Write) (now : ℕ) (id tx_hash : String) (owner : Option String) (s : Store) where
  created_old :
      (j : String)
      → truthy (Dict.get s.tx_hash_index (lower tx_hash)) ≡ some j
      → create_attestation w now id tx_hash owner s ≡ (returned (Dict.get s.attestations j), s)
  unfolding create_attestation
  created_old j e = rw (e, create_attestation)

  created_new :
      truthy (Dict.get s.tx_hash_index (lower tx_hash)) ≡ none
      → (create_attestation w now id tx_hash owner s).1.data_in_memory
        ≡ inserted s.data_in_memory id (new_attestation now id tx_hash owner)
  unfolding create_attestation
  created_new e =
      rw (e, create_attestation) (data_in_memory-commit {A = Option Attestation} w _ _ s)

  -- Creating keeps the index right, whether the row is new or was there, and whatever the write does.
  pub create_attestation-IsIndexed :
      IsIndexed s.data_in_memory
      → id ≢ ""
      → Dict.get s.attestations id ≡ none
      → IsIndexed (create_attestation w now id tx_hash owner s).1.data_in_memory
  create_attestation-IsIndexed v named fresh =
      let same = truthy_index s.data_in_memory (lower tx_hash) v in
      elim (Option-cases (Dict.get s.tx_hash_index (lower tx_hash))) [
        | inl new ↦ rw (created_new (same ∙ new)) (
            inserted-IsIndexed s.data_in_memory id (new_attestation now id tx_hash owner) v named
              fresh new)
        | inr (j, found) ↦ rw (created_old j (same ∙ found)) v
      ]

module _ (w : Write) (now : ℕ) (id : String) (u : Updates) (s : Store) where
  updated :
      (a : Attestation)
      → Dict.get s.attestations id ≡ some a
      → (update_attestation w now id u s).1.data_in_memory
        ≡ replaced_row s.data_in_memory id (with_updates u now a)
  unfolding update_attestation
  updated a e = rw (e, update_attestation) (data_in_memory-commit {A = Option Attestation} w _ _ s)

  tx_hash-with_updates : (a : Attestation) → a.tx_hash ≡ (with_updates u now a).tx_hash
  unfolding with_updates
  tx_hash-with_updates a = refl

  unknown : Dict.get s.attestations id ≡ none → (update_attestation w now id u s).1 ≡ s
  unfolding update_attestation
  unknown e = rw (e, update_attestation) refl

  -- Updating keeps the index right, whatever is updated and whatever the write does.
  pub update_attestation-IsIndexed :
      IsIndexed s.data_in_memory → IsIndexed (update_attestation w now id u s).1.data_in_memory
  update_attestation-IsIndexed v = elim (Option-cases (Dict.get s.attestations id)) [
    | inl e ↦ rw (unknown e) v
    | inr (a, e) ↦ rw (updated a e) (
        replaced_row-IsIndexed s.data_in_memory id (with_updates u now a) a v e
          (tx_hash-with_updates a))
  ]

module _ (w : Write) (now : ℕ) (id tx_hash : String) (owner : Option String) (s : Store) where
  known :
      (h : String) (j : String) (a : Attestation)
      → truthy (Dict.get s.tx_hash_index (lower h)) ≡ some j
      → Dict.get s.attestations j ≡ some a
      → get_by_tx_hash h s ≡ some a
  unfolding get_by_tx_hash
  known h j a e f = rw (e, get_by_tx_hash) f

  created_row :
      (a : Attestation)
      → truthy (Dict.get s.tx_hash_index (lower tx_hash)) ≡ none
      → (create_attestation w now id tx_hash owner s).0 ≡ returned (some a)
      → new_attestation now id tx_hash owner ≡ a
  unfolding create_attestation
  created_row a e done =
      let r =
        commit-eq-returned {A = Option Attestation} w _ _ s (rw (e, create_attestation) at done) in
      cc r

module _ (s : Store) (h : String) (j : String) (a : Attestation) where
  -- A row that the index names is found, and creating gives it back.
  known_row :
      (v : Write) (later : ℕ) (id : String) (owner : Option String)
      → truthy (Dict.get s.tx_hash_index (lower h)) ≡ some j
      → Dict.get s.attestations j ≡ some a
      → (get_by_tx_hash h s ≡ some a)
        × (create_attestation v later id h owner s ≡ (returned (some a), s))
  known_row v later id owner e f = (
    known v later id h owner s h j a e f,
    created_old v later id h owner s j e ∙ ap (λ o. (returned o, s)) f,
  )

-- After a call that returns, the hash, in any spelling that has its lower case, is found: it is the
-- row that the call returned. A second call for the hash, with whatever id, time and owner, returns
-- that row and changes nothing.
pub get_by_tx_hash-create_attestation :
    (w v : Write) (now later : ℕ) (id id' tx_hash h : String) (owner owner' : Option String)
    (s : Store) (a : Attestation)
    → IsIndexed s.data_in_memory
    → id ≢ ""
    → lower h ≡ lower tx_hash
    → (create_attestation w now id tx_hash owner s).0 ≡ returned (some a)
    → (get_by_tx_hash h (create_attestation w now id tx_hash owner s).1 ≡ some a)
      × (create_attestation v later id' h owner' (create_attestation w now id tx_hash owner s).1
          ≡ (returned (some a), (create_attestation w now id tx_hash owner s).1))
get_by_tx_hash-create_attestation w v now later id id' tx_hash h owner owner' s a ok named same
      done =
    elim (Option-cases (Dict.get s.tx_hash_index (lower tx_hash))) [
      | inl new ↦
          let e = truthy_index s.data_in_memory (lower tx_hash) ok ∙ new in
          let d = created_new w now id tx_hash owner s e in
          let r = created_row w now id tx_hash owner s a e done in
          known_row (create_attestation w now id tx_hash owner s).1 h id a v later id' owner'
            (ground (
              arith,
              ap (λ (x : PersistedData). Dict.get x.tx_hash_index (lower h)) d,
              get-set s.tx_hash_index (lower tx_hash) (lower h) id,
              eq_iff (lower tx_hash) (lower h),
              eq_iff id "",
            ))
            (ground (
              arith,
              r,
              ap (λ (x : PersistedData). Dict.get x.attestations id) d,
              get-set s.attestations id id (new_attestation now id tx_hash owner),
              eq_iff id id,
            ))
      | inr (j, found) ↦
          let e = truthy_index s.data_in_memory (lower tx_hash) ok ∙ found in
          let t = created_old w now id tx_hash owner s j e in
          rw t (known_row s h j a v later id' owner' (rw same e) (cc (ap (λ x. x.0) t, done)))
    ]
