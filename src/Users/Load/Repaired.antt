-- ===== src/Users/Load/Repaired.antt =====
-- src/user-store.ts: one load repairs every row, and a second one changes nothing.
use Prim.Native.String.append
use mathlib.Core.List.{map}
use text.Mathlib.Text.{starts_with}
use text.Mathlib.TextEquality.{starts_with_iff}
use xrplink.Dict
use xrplink.Dict.{Dict}
use xrplink.Keys.{
  plaintext_prefix, IsHexDigest, is_plaintext_api_key, is_api_key_hash, hash_api_key,
}
use xrplink.Prelude.Text.{lower}
use Prim.Native.String.{count}
use xrplink.Users.Load.{
  FileUser, UsersFile, absent, table, wrapped, malformed, hashed_ids, has_secret, has_version,
  load_rows, email_index_of, hashed_id, needs_repair, repair, repair_rows, needs_persist,
  load_users,
}
use xrplink.X402.{Save, saved}
use xrplink.Prelude.{
  ℕ, ◌≤◌, ◌<◌, ◌⊎◌, ltb, ◌&&◌, Option, none, some, get_or, if◌then◌else◌, String, ◌++◌, ◌≡◌, refl,
  sym, ap, ◌∙◌, inl, inr, true, false, not, List, [], ◌∷◌, arith, ◌==◌, eq_iff, Bool-cases, any,
}

hash_is_no_secret : (v : String) → is_api_key_hash v ≡ true → is_plaintext_api_key v ≡ false
unfolding is_api_key_hash is_plaintext_api_key
hash_is_no_secret v h = elim (Bool-cases (starts_with v plaintext_prefix)) [
  | inl e ↦
      let (u, p) = (starts_with_iff v plaintext_prefix).0 e in
      let spelled = append.cons "s" "k_live_" u in
      let impossible : is_api_key_hash (String.◌∷◌ "s" ("k_live_" ++ u)) ≡ true =
        ap is_api_key_hash (sym spelled ∙ p) ∙ h in
      ground (arith, impossible)
  | inr e ↦ ground (arith, e)
]

module _ (sha256 : String → String) (hex : IsHexDigest sha256) where
  hashed_id_idem : (k : String) → hashed_id sha256 (hashed_id sha256 k) ≡ hashed_id sha256 k
  unfolding hash_api_key
  hashed_id_idem k = ground (arith, hash_is_no_secret (sha256 k) (hex k))

  hashed_ids_idem :
      (ks : List String)
      → map (hashed_id sha256) (map (hashed_id sha256) ks) ≡ map (hashed_id sha256) ks
  hashed_ids_idem [] = refl
  hashed_ids_idem (k ∷ ks) = rw (hashed_id_idem k, hashed_ids_idem ks) refl

  none_changed :
      (ks : List String)
      → any (λ k. not (hashed_id sha256 k == k)) (map (hashed_id sha256) ks) ≡ false
  none_changed [] = refl
  none_changed (k ∷ ks) = ground (
    arith,
    none_changed ks,
    hashed_id_idem k,
    eq_iff (hashed_id sha256 (hashed_id sha256 k)) (hashed_id sha256 k),
  )

  ids_idem :
      (ids : Option (List String))
      → hashed_ids sha256 (hashed_ids sha256 ids) ≡ hashed_ids sha256 ids
  ids_idem none = refl
  ids_idem (some ids) = ap some (hashed_ids_idem ids)

  no_secret : (ids : Option (List String)) → has_secret sha256 (hashed_ids sha256 ids) ≡ false
  no_secret none = refl
  no_secret (some ids) = none_changed ids

  repair_idem : (u : FileUser) → repair sha256 (repair sha256 u) ≡ repair sha256 u
  unfolding repair
  repair_idem u = ground (arith, ids_idem u.api_key_ids)

  needs_repair-repair : (u : FileUser) → needs_repair sha256 (repair sha256 u) ≡ false
  unfolding repair
  needs_repair-repair u = ground (arith, no_secret u.api_key_ids)

  repair_rows_idem :
      (rows : Dict FileUser)
      → repair_rows sha256 (repair_rows sha256 rows) ≡ repair_rows sha256 rows
  unfolding repair_rows
  repair_rows_idem [] = refl
  repair_rows_idem ((id, u) ∷ rows) = rw (repair_idem u, repair_rows_idem rows) refl

  needs_persist-repair_rows :
      (rows : Dict FileUser) → needs_persist sha256 (repair_rows sha256 rows) ≡ false
  unfolding repair_rows needs_persist
  needs_persist-repair_rows [] = refl
  needs_persist-repair_rows ((id, u) ∷ rows) =
      ground (arith, needs_repair-repair u, needs_persist-repair_rows rows)

  email_index_of-repair_rows :
      (rows : Dict FileUser) (index : Dict String)
      → email_index_of (repair_rows sha256 rows) index ≡ email_index_of rows index
  unfolding email_index_of repair_rows repair
  email_index_of-repair_rows [] index = refl
  email_index_of-repair_rows ((id, u) ∷ rows) index =
      email_index_of-repair_rows rows (Dict.set index (lower u.email) id)

  -- The rows of a file, loaded twice.
  load_rows-again :
      (rows : Dict FileUser) (w : Save) (file : UsersFile)
      → ((v : Save) → load_users sha256 v file ≡ load_rows sha256 v rows file)
      → let first = load_rows sha256 saved rows file in load_users sha256 w first.file ≡ first
  unfolding load_users
  load_rows-again rows w file h = elim (Bool-cases (needs_persist sha256 rows)) [
    | inr e ↦ rw (e, load_rows) (h w ∙ (rw (e, load_rows) refl))
    | inl e ↦
        rw (e, load_rows)
          (rw
            (
              needs_persist-repair_rows rows,
              repair_rows_idem rows,
              email_index_of-repair_rows rows [],
            )
            refl)
  ]

  load_users-again :
      (file : UsersFile) (w : Save)
      → let first = load_users sha256 saved file in load_users sha256 w first.file ≡ first
  unfolding load_users
  load_users-again absent w = refl
  load_users-again (malformed m) w = refl
  load_users-again (table rows) w = load_rows-again rows w (table rows) (λ v. refl)
  load_users-again (wrapped rows) w = load_rows-again rows w (wrapped rows) (λ v. refl)

module _ (sha256 : String → String) where
  -- A secret key begins with `sk_live_` and has more than 20 characters; its id is its digest.
  abbrev pub IsSecret : String → Type 0
  IsSecret k = (starts_with k "sk_live_" ≡ true) × (20 < count k)

  abbrev pub AreIds : List String → List String → Type 0
  AreIds [] [] = Unit
  AreIds (k ∷ ks) (id ∷ ids) =
      ((IsSecret k × (id ≡ sha256 k)) ⊎ ((IsSecret k → ⊥) × (id ≡ k))) × AreIds ks ids
  AreIds _ _ = ⊥

  abbrev pub AreIdsOf : Option (List String) → Option (List String) → Type 0
  AreIdsOf none none = Unit
  AreIdsOf (some ks) (some ids) = AreIds ks ids
  AreIdsOf _ _ = ⊥

  -- A row `u` of the file and the account `v` that it becomes.
  pub record IsRepaired (u v : FileUser) : Type 0 where
    pub ids : AreIdsOf u.api_key_ids v.api_key_ids
    pub version : ℕ
    pub versioned : v.session_version ≡ some version
    pub positive : 1 ≤ version
    pub kept : (old : ℕ) → u.session_version ≡ some old → 1 ≤ old → old ≡ version
    pub same : v ≡ record u { api_key_ids = v.api_key_ids; session_version = v.session_version }

  abbrev pub AreRepaired : Dict FileUser → Dict FileUser → Type 0
  AreRepaired [] [] = Unit
  AreRepaired ((id, u) ∷ rows) ((id', v) ∷ rows') =
      (id ≡ id') × IsRepaired u v × AreRepaired rows rows'
  AreRepaired _ _ = ⊥

  hashed_id-id :
      (k : String)
      → (IsSecret k × (hashed_id sha256 k ≡ sha256 k))
        ⊎ ((IsSecret k → ⊥) × (hashed_id sha256 k ≡ k))
  unfolding hash_api_key is_plaintext_api_key
  hashed_id-id k = elim (Bool-cases (starts_with k "sk_live_" && ltb 20 (count k))) [
    | inl e ↦ inl ((ground arith, ground arith), rw (e, hashed_id) refl)
    | inr e ↦ inr ((λ (p, q). ground arith), rw (e, hashed_id) refl)
  ]

  hashed_ids-AreIds : (ks : List String) → AreIds ks (map (hashed_id sha256) ks)
  hashed_ids-AreIds [] = tt
  hashed_ids-AreIds (k ∷ ks) = (hashed_id-id k, hashed_ids-AreIds ks)

  hashed_ids-AreIdsOf : (ks : Option (List String)) → AreIdsOf ks (hashed_ids sha256 ks)
  hashed_ids-AreIdsOf none = tt
  hashed_ids-AreIdsOf (some ks) = hashed_ids-AreIds ks

  version_of : FileUser → ℕ
  version_of u = if has_version u then get_or u.session_version 1 else 1

  repair-IsRepaired : (u : FileUser) → IsRepaired u (repair sha256 u)
  unfolding repair version_of
  repair-IsRepaired u = record {
    ids = hashed_ids-AreIdsOf u.api_key_ids;
    version = version_of u;
    versioned = ground arith;
    positive = ground arith;
    kept = λ old e h. ground arith;
    same = refl;
  }

  repair_rows-AreRepaired : (rows : Dict FileUser) → AreRepaired rows (repair_rows sha256 rows)
  unfolding repair_rows
  repair_rows-AreRepaired [] = tt
  repair_rows-AreRepaired ((id, u) ∷ rows) =
      (refl, repair-IsRepaired u, repair_rows-AreRepaired rows)

  -- The accounts that a file holds.
  abbrev pub rows_of : UsersFile → Dict FileUser
  rows_of (table rows) = rows
  rows_of (wrapped rows) = rows
  rows_of _ = []

  load_rows-AreRepaired :
      (rows : Dict FileUser) (file : UsersFile)
      → AreRepaired rows (load_rows sha256 saved rows file).memory.users
  load_rows-AreRepaired rows file = elim (Bool-cases (needs_persist sha256 rows)) [
    | inl e ↦ rw (e, load_rows) (repair_rows-AreRepaired rows)
    | inr e ↦ rw (e, load_rows) (repair_rows-AreRepaired rows)
  ]

  file-AreRepaired :
      (file : UsersFile) → AreRepaired (rows_of file) (load_users sha256 saved file).memory.users
  unfolding load_users
  file-AreRepaired absent = tt
  file-AreRepaired (malformed m) = tt
  file-AreRepaired (table rows) = load_rows-AreRepaired rows (table rows)
  file-AreRepaired (wrapped rows) = load_rows-AreRepaired rows (wrapped rows)

  -- A load that can write answers the accounts of the file, in its order: each key that the row holds
  -- as a secret is its digest, every other id is as it was, the session version is a positive one,
  -- the row's own if that was one, and the rest is unchanged. The next load answers the same accounts
  -- and index and leaves the file as it is, whatever its own write would do. Digests are in hex.
  pub load_users-AreRepaired :
      (hex : IsHexDigest sha256) (file : UsersFile) (w : Save)
      → let first = load_users sha256 saved file in
        AreRepaired (rows_of file) first.memory.users × (load_users sha256 w first.file ≡ first)
  load_users-AreRepaired hex file w = (file-AreRepaired file, load_users-again sha256 hex file w)
