-- ===== src/KeyRotation/Laws.antt =====
-- src/key-rotation.ts: what a rotation does to the account.
use xrplink.Prelude.{
  arith, String, not, ◌==◌, eq_refl, [], List, ◌+◌, ◌∷◌, sym, ap, ◌∙◌, ◌≡◌, some, ℕ, String, ◌≡◌,
  refl, sym, ap, ◌∙◌, Option, none, some,
}
use xrplink.Dict
use xrplink.Keys.{hash_api_key}
use xrplink.Store.{ApiKey, Store, Write, Outcome, returned, threw}
use xrplink.Users.{StoredUser, UserStore, find_by_id, update, current_session_version}
use xrplink.Users.Sessions.Laws.{replaced-refused, row_of_accepted, row-update, version_of_next}
use xrplink.Users.Sessions.{Crypto, SessionPayload, verify_token, get_user_from_token}
use xrplink.KeyRotation.{
  not, differs, keep, Site, Rotated, Result, chain, retire, with_new_key, finish_rotation,
  count_and_retire, rotate_current, rotate_user_api_key,
}

module _ (sha256 : String → String) (fate : Site → Write) (current : StoredUser)
    (users : UserStore) where
  -- If the rotation is reported, the account is changed for the key that is reported.
  abbrev IsApplied : Result → Type 0
  IsApplied x =
      (r : Rotated)
      → x.0 ≡ returned (some r)
      → x.1.0 ≡ update current.id (with_new_key (hash_api_key sha256 r.plaintext) current) users

  chain-IsApplied :
      {A : Type 0} (x : Outcome A × Store) (k : A → Store → Result)
      → ((a : A) (s : Store) → IsApplied (k a s))
      → IsApplied (chain users x k)
  unfolding chain
  chain-IsApplied (returned a, s) k h = h a s
  chain-IsApplied (threw m, s) k h = λ r e. cc

  retire-IsApplied :
      (old : Option String) (id : String) (s : Store) (k : Store → Result)
      → ((v : Store) → IsApplied (k v))
      → IsApplied (retire sha256 fate users old id s k)
  unfolding retire
  retire-IsApplied none id s k h = h s
  retire-IsApplied (some old) id s k h =
      chain-IsApplied _ _ (λ _ t. chain-IsApplied _ _ (λ _ v. h v))

  finish-IsApplied :
      (created : ApiKey) (s : Store)
      → IsApplied (finish_rotation sha256 fate current users created s)
  unfolding finish_rotation
  finish-IsApplied created s r e =
      let same : created.key ≡ r.plaintext = cc in
      ap (λ k. update current.id (with_new_key (hash_api_key sha256 k) current) users) same

  count-IsApplied :
      (old : Option String) (usage : ℕ) (created : ApiKey) (s : Store)
      → IsApplied (count_and_retire sha256 fate current old usage users created s)
  unfolding count_and_retire
  count-IsApplied old usage created s =
      chain-IsApplied _ _ (λ _ t.
        retire-IsApplied old (hash_api_key sha256 created.key) t _ (finish-IsApplied created))

  rotate-IsApplied :
      (now : ℕ) (secret : String) (s : Store)
      → IsApplied (rotate_current sha256 fate now secret current users s)
  unfolding rotate_current
  rotate-IsApplied now secret s = chain-IsApplied _ _ (count-IsApplied _ _)

rotate_found :
    (sha256 : String → String) (fate : Site → Write) (now : ℕ) (secret : String) (u : StoredUser)
    (users : UserStore) (s : Store)
    → Dict.get users.users u.id ≡ some u
    → rotate_user_api_key sha256 fate now secret u users s
      ≡ rotate_current sha256 fate now secret u users s
unfolding rotate_user_api_key find_by_id
rotate_found sha256 fate now secret u users s e = rw (e, rotate_user_api_key) refl

-- The ids without the first one, wherever that is listed.
abbrev pub without_first : List String → List String
without_first [] = []
without_first (old ∷ ids) = keep (λ id. not (id == old)) ids

keep-first_id :
    (ids : List String)
    → keep (differs (elim ids [ [] ↦ none | id ∷ rest ↦ some id ])) ids ≡ without_first ids
keep-first_id [] = refl
keep-first_id (old ∷ ids) = ground (arith, eq_refl old)

-- A rotation that is reported, whatever its file writes were: the account lists the id of the reported
-- key first, then its other ids without the one that was first, its session version is one higher,
-- the rest of it is as before, and every session token of the user that was accepted before is
-- refused. The user is stored under its own id.
pub rotate_user_api_key-revokes :
    (c : Crypto) (sha256 : String → String) (fate : Site → Write) (now : ℕ) (secret token : String)
    (p : SessionPayload) (u : StoredUser) (users : UserStore) (s : Store) (r : Rotated)
    → verify_token c token ≡ some p
    → get_user_from_token c token users ≡ some u
    → p.user_id ≡ u.id
    → (rotate_user_api_key sha256 fate now secret u users s).0 ≡ returned (some r)
    → let after = (rotate_user_api_key sha256 fate now secret u users s).1.0 in
      (Dict.get after.users u.id
        ≡ some (record u {
          api_key_ids = hash_api_key sha256 r.plaintext ∷ without_first u.api_key_ids;
          session_version = some (current_session_version u + 1);
        }))
      × (get_user_from_token c token after ≡ none)
rotate_user_api_key-revokes c sha256 fate now secret token p u users s r e accepted same done =
    let row : Dict.get users.users u.id ≡ some u =
      ap (λ id. Dict.get users.users id) (sym same)
      ∙ row_of_accepted c token p u users e accepted in
    let opened = rotate_found sha256 fate now secret u users s row in
    let applied : (rotate_user_api_key sha256 fate now secret u users s).1.0
        ≡ update u.id (with_new_key (hash_api_key sha256 r.plaintext) u) users =
      ap (λ x. x.1.0) opened
      ∙ rotate-IsApplied sha256 fate u users now secret s r (ap (λ x. x.0) (sym opened) ∙ done) in
    let new_row =
      ap (λ (x : UserStore). Dict.get x.users u.id) applied
      ∙ row-update c u.id (with_new_key (hash_api_key sha256 r.plaintext) u) u users row in
    (
      new_row
          ∙ ap
              (λ ids. some (record u {
                api_key_ids = hash_api_key sha256 r.plaintext ∷ ids;
                session_version = some (current_session_version u + 1);
              }))
              (keep-first_id u.api_key_ids),
      replaced-refused c token p u (with_new_key (hash_api_key sha256 r.plaintext) u u) users
          (rotate_user_api_key sha256 fate now secret u users s).1.0 e
          (row_of_accepted c token p u users e accepted) accepted
          (ap (λ id. Dict.get (rotate_user_api_key sha256 fate now secret u users s).1.0.users id)
              same
            ∙ new_row)
          (version_of_next c
            (record u {
              api_key_ids = (with_new_key (hash_api_key sha256 r.plaintext) u u).api_key_ids;
            })
            (current_session_version u)),
    )
