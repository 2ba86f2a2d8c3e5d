-- ===== src/Users/Sessions/Laws.antt =====
-- src/auth.ts: a session token is good until the sessions of its user are revoked.
use xrplink.Prelude.{
  ℕ, ◌+◌, String, ◌≡◌, sym, ap, ◌∙◌, ◌≢◌, Option, none, some, arith, eq_iff, eq_refl,
}
use xrplink.Dict
use xrplink.Dict.{get-set}
use xrplink.Users.{
  StoredUser, UserStore, find_by_id, update, current_session_version, bump_session_version,
  find_by_reset_token_hash,
}
use xrplink.Users.Sessions.{
  SessionPayload, accepted, Crypto, session_token_purpose, claims_of, issue_session_token,
  verify_token, get_user_from_token, with_password, reset_password, revoke_user_sessions,
}

module _ (c : Crypto) where
  -- The row of the token's user was replaced by one with a later version.
  pub replaced-refused :
      (token : String) (p : SessionPayload) (u v : StoredUser) (s t : UserStore)
      → verify_token c token ≡ some p
      → Dict.get s.users p.user_id ≡ some u
      → get_user_from_token c token s ≡ some u
      → Dict.get t.users p.user_id ≡ some v
      → current_session_version v ≡ current_session_version u + 1
      → get_user_from_token c token t ≡ none
  unfolding get_user_from_token find_by_id
  replaced-refused token p u v s t e f h g k = ground arith

  pub row_of_accepted :
      (token : String) (p : SessionPayload) (u : StoredUser) (s : UserStore)
      → verify_token c token ≡ some p
      → get_user_from_token c token s ≡ some u
      → Dict.get s.users p.user_id ≡ some u
  unfolding get_user_from_token find_by_id
  row_of_accepted token p u s e h = ground arith

  pub version_of_next :
      (u : StoredUser) (n : ℕ)
      → current_session_version (record u { session_version = some (n + 1) }) ≡ n + 1
  unfolding current_session_version
  version_of_next u n = ground arith

  pub row-update :
      (id : String) (f : StoredUser → StoredUser) (u : StoredUser) (s : UserStore)
      → Dict.get s.users id ≡ some u
      → Dict.get (update id f s).users id ≡ some (f u)
  unfolding update
  row-update id f u s e = rw (e, update) (ground (arith, get-set s.users id id (f u), eq_refl id))

  row-revoke :
      (id : String) (u : StoredUser) (s : UserStore)
      → Dict.get s.users id ≡ some u
      → Dict.get (revoke_user_sessions id s).1.users id
        ≡ some (record u { session_version = some (current_session_version u + 1) })
  unfolding revoke_user_sessions bump_session_version
  row-revoke id u s row = rw (row, bump_session_version) (row-update id _ u s row)

  state_of_reset :
      (now : ℕ) (reset password : String) (u : StoredUser) (s : UserStore) (r : Option StoredUser)
      (key : String)
      → find_by_reset_token_hash (c.sha256 reset) s ≡ some u
      → (reset_password c now reset password s).0 ≡ accepted r key none
      → (reset_password c now reset password s).1
        ≡ update u.id (with_password c password (current_session_version u + 1)) s
  unfolding reset_password
  state_of_reset now reset password u s r key found done = ground arith

  -- Revoking the sessions of a user refuses every token of that user that was accepted before.
  pub get_user_from_token-revoke_user_sessions :
      (token : String) (p : SessionPayload) (u : StoredUser) (s : UserStore)
      → verify_token c token ≡ some p
      → get_user_from_token c token s ≡ some u
      → get_user_from_token c token (revoke_user_sessions p.user_id s).1 ≡ none
  get_user_from_token-revoke_user_sessions token p u s e h =
      let row = row_of_accepted token p u s e h in
      let n = current_session_version u in
      let f : StoredUser → StoredUser = λ v. record v { session_version = some (n + 1) } in
      replaced-refused token p u (f u) s (revoke_user_sessions p.user_id s).1 e row h
        (row-revoke p.user_id u s row) (version_of_next u n)

  -- An accepted password reset refuses every token of the user that was accepted before it.
  pub get_user_from_token-reset_password :
      (token : String) (p : SessionPayload) (u : StoredUser) (now : ℕ) (reset password : String)
      (s : UserStore)
      → verify_token c token ≡ some p
      → get_user_from_token c token s ≡ some u
      → p.user_id ≡ u.id
      → find_by_reset_token_hash (c.sha256 reset) s ≡ some u
      → (r : Option StoredUser) (key : String)
      → (reset_password c now reset password s).0 ≡ accepted r key none
      → get_user_from_token c token (reset_password c now reset password s).1 ≡ none
  get_user_from_token-reset_password token p u now reset password s e h same found r key done =
      let row = row_of_accepted token p u s e h in
      let n = current_session_version u in
      let v = with_password c password (n + 1) u in
      let v_row : Dict.get (reset_password c now reset password s).1.users p.user_id ≡ some v =
        ap (λ t. Dict.get t.users p.user_id)
          (state_of_reset now reset password u s r key found done)
        ∙ (ap (λ id. Dict.get (update id (with_password c password (n + 1)) s).users p.user_id)
              (sym same)
            ∙ row-update p.user_id _ u s row) in
      replaced-refused token p u v s (reset_password c now reset password s).1 e row h v_row (
        version_of_next
          (record u {
            password_hash = c.hash_password password;
            reset_token_hash = none;
            reset_token_expires_at = none;
          })
          n)

  -- A token that is issued for a user as stored is accepted, as that user, if signing is sound.
  pub get_user_from_token-issue_session_token :
      (u : StoredUser) (s : UserStore)
      → (c.verify (issue_session_token c u) ≡ some (claims_of c u))
      → u.id ≢ ""
      → Dict.get s.users u.id ≡ some u
      → get_user_from_token c (issue_session_token c u) s ≡ some u
  unfolding get_user_from_token verify_token find_by_id
  get_user_from_token-issue_session_token u s signed named row =
      ground (arith, eq_iff u.id "", signed, row, eq_refl session_token_purpose)
