-- ===== src/Store/Load/Index.antt =====
-- src/store.ts: the index by transaction hash, rebuilt from the rows.
use xrplink.Store.Load.Copies.{IsDistinct}
use xrplink.Dict
use xrplink.Store.Attestations.Index.{IsIndexed}
use xrplink.Dict.{get-empty, get-set}
use xrplink.Dict.{Dict}
use xrplink.Prelude.Text.{lower}
use xrplink.Store.{Attestation, PersistedData}
use xrplink.Store.Load.{index_of}
use xrplink.Prelude.{
  String, ◌≡◌, refl, sym, ap, ◌∙◌, ◌≢◌, ◌⊎◌, inl, inr, none, some, [], ◌∷◌, arith, ◌==◌, eq_iff,
  eq_refl, Bool-cases, Option-cases, All,
}

-- An entry of the index stays, and every row has one.
index_of-keeps :
    (rows : Dict Attestation) (next : Dict String) (h : String)
    → Dict.get next h ≢ none
    → Dict.get (index_of rows next) h ≢ none
unfolding index_of
index_of-keeps [] next h e = e
index_of-keeps ((id, a) ∷ rows) next h e =
    index_of-keeps rows (Dict.set next (lower a.tx_hash) id) h
      (ground (arith, get-set next (lower a.tx_hash) h id))

index_of-covers :
    (rows : Dict Attestation) (next : Dict String) (id : String) (a : Attestation)
    → Dict.get rows id ≡ some a
    → Dict.get (index_of rows next) (lower a.tx_hash) ≢ none
unfolding index_of Dict.get
index_of-covers [] next id a e = cc
index_of-covers ((i, b) ∷ rows) next id a e = elim (Bool-cases (i == id)) [
  | inl same ↦ index_of-keeps rows (Dict.set next (lower b.tx_hash) i) (lower a.tx_hash) (
      ground (
        arith,
        get-set next (lower b.tx_hash) (lower a.tx_hash) i,
        eq_iff (lower b.tx_hash) (lower a.tx_hash),
      ))
  | inr other ↦ index_of-covers rows (Dict.set next (lower b.tx_hash) i) id a (ground arith)
]

-- Where every row's hash points to the row in `index`, the rebuilt index agrees with it.
index_of-agrees :
    (index : Dict String) (rows : Dict Attestation) (next : Dict String) (h : String)
    → All (λ e. Dict.get index (lower e.1.tx_hash) ≡ some e.0) rows
    → (Dict.get next h ≡ none) ⊎ (Dict.get next h ≡ Dict.get index h)
    → (Dict.get (index_of rows next) h ≡ none)
      ⊎ (Dict.get (index_of rows next) h ≡ Dict.get index h)
unfolding index_of
index_of-agrees index [] next h p q = q
index_of-agrees index ((id, a) ∷ rows) next h p q =
    index_of-agrees index rows (Dict.set next (lower a.tx_hash) id) h p.1
      (elim (Bool-cases (lower a.tx_hash == h)) [
        | inl same ↦
            inr
              (ground (arith, get-set next (lower a.tx_hash) h id, eq_iff (lower a.tx_hash) h, p.0))
        | inr other ↦ rw (get-set next (lower a.tx_hash) h id, other) q
      ])

-- Every entry of a table with distinct keys is what its key finds.
All-distinct :
    {V : Type 0} (P : String → V → Type 0) (d : Dict V)
    → IsDistinct d
    → ((k : String) (v : V) → Dict.get d k ≡ some v → P k v)
    → All (λ e. P e.0 e.1) d
unfolding Dict.get
All-distinct P [] distinct p = tt
All-distinct P ((k, v) ∷ d) distinct p = (
  p k v (rw (eq_refl k) refl),
  All-distinct P d distinct.1 (λ j w e. p j w (ground (arith, eq_iff k j, distinct.0))),
)

-- The rebuilt index has no gap.
index_of-none :
    (d : PersistedData)
    → IsIndexed d
    → (h : String) → Dict.get (index_of d.attestations []) h ≡ none
    → Dict.get d.tx_hash_index h ≡ none
index_of-none d v h e = elim (Option-cases (Dict.get d.tx_hash_index h)) [
  | inl f ↦ f
  | inr (id, f) ↦ elim (Option-cases (Dict.get d.attestations id)) [
    | inl g ↦ absurd (v.present h id f g)
    | inr (a, g) ↦ absurd (
        index_of-covers d.attestations [] id a g
          (ap (Dict.get (index_of d.attestations [])) (v.hashed h id a f g) ∙ e))
  ]
]

pub index_of-get :
    (d : PersistedData)
    → IsIndexed d
    → IsDistinct d.attestations
    → (h : String) → Dict.get (index_of d.attestations []) h ≡ Dict.get d.tx_hash_index h
index_of-get d v distinct h =
    elim (index_of-agrees d.tx_hash_index d.attestations [] h
      (All-distinct (λ id a. Dict.get d.tx_hash_index (lower a.tx_hash) ≡ some id) d.attestations
        distinct v.listed)
      (inl (get-empty h))) [ inr e ↦ e | inl e ↦ e ∙ sym (index_of-none d v h e) ]
