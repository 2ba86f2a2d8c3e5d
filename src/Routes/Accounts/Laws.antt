-- ===== src/Routes/Accounts/Laws.antt =====
-- src/routes.ts: what signing up, logging in and logging out do to the requests that follow.
use xrplink.Dict
use xrplink.Dict.{get-set}
use xrplink.Keys.{hash_api_key, is_plaintext_api_key, is_api_key_hash, IsHexDigest}
use xrplink.Store.{
  ApiKey, Store, Write, Outcome, returned, threw, outcomes, free, commit-eq-returned,
}
use xrplink.Store.ApiKeys.{create_api_key, get_api_key, new_api_key}
use Prim.Native.String.{count}
use xrplink.Store.ApiKeys.Laws.{get_api_key-create_api_key}
use xrplink.Users.{
  current_session_version, StoredUser, UserStore, create, update, find_by_email, new_user,
}
use xrplink.Users.Sessions.{
  Crypto, AuthResult, accepted, refused, signup, get_user_from_token, issue_session_token,
  revoke_user_sessions, SessionPayload, claims_of, verify_token,
}
use xrplink.Users.Sessions.Laws.{
  row_of_accepted, get_user_from_token-revoke_user_sessions,
  get_user_from_token-issue_session_token, row-update,
}
use xrplink.Middleware.{Headers, Guarded, passed, get_request_token, require_auth, invalid_auth}
use xrplink.Routes.{answer}
use xrplink.Routes.Accounts.{
  signed_up, post_signup, Credentials, Issued, reply, SessionCookie, post_logout, request_user,
}
use xrplink.Prelude.{
  ℕ, String, ◌++◌, ◌≡◌, refl, sym, ap, ◌∙◌, ◌≢◌, inl, inr, true, false, ◌||◌, Option, some, [], ◌∷◌,
  arith, ◌==◌, eq_iff, eq_refl, ltb, Bool-cases, Option-cases, is_some, get_or,
}

module _ (c : Crypto) (decode : String → Option String) where
  -- The account after it got its key.
  abbrev pub signed_up_user : ℕ → String → String → String → String → StoredUser
  signed_up_user now id secret email password =
      record (new_user now id email (c.hash_password password)) {
        api_key_ids = hash_api_key c.sha256 secret ∷ [];
      }

  created_key :
      (w : Write) (now : ℕ) (secret name : String) (s : Store) (k : ApiKey)
      → (create_api_key c.sha256 w now secret name free s).0 ≡ returned k
      → record (new_api_key c.sha256 now secret name free) { key = secret } ≡ k
  unfolding create_api_key
  created_key w now secret name s k e = commit-eq-returned w _ _ s e

  signup-created :
      (w : Write) (now : ℕ) (id secret email password : String) (users : UserStore) (s : Store)
      (u : Option StoredUser) (token : String) (key : Option String)
      → (signup c w now id secret email password users s).0 ≡ returned (accepted u token key)
      → signup c w now id secret email password users s ≡ (
        returned (
            accepted
              (some (new_user now id email (c.hash_password password)))
              (issue_session_token c (new_user now id email (c.hash_password password)))
              (some secret)),
        (
          update id
              (λ u. record u { api_key_ids = hash_api_key c.sha256 secret ∷ [] })
              (create now id email (c.hash_password password) users).1,
          (create_api_key c.sha256 w now secret ("User: " ++ email) free s).1,
        ),
      )
  unfolding signup create
  signup-created w now id secret email password users s u token key e =
      elim (Bool-cases ((email == "") || (password == ""))) [
        | inl a ↦ absurd (ground (arith, a))
        | inr a ↦ elim (Bool-cases (ltb (count password) 8)) [
          | inl b ↦ absurd (ground (arith, a, b))
          | inr b ↦ elim (Bool-cases (is_some (find_by_email email users))) [
            | inl f ↦ absurd (ground (arith, a, b, f))
            | inr f ↦
                elim (outcomes
                  (create_api_key c.sha256 w now secret ("User: " ++ email) free s).0) [
                    | inl (m, g) ↦ absurd (ground (arith, a, b, f, g))
                    | inr (k, g) ↦
                        let made : k.key ≡ secret =
                          ap (λ k. k.key)
                            (sym (created_key w now secret ("User: " ++ email) s k g)) in
                        rw (a, b, f, g, made, signup) refl
                  ]
          ]
        ]
      ]

  accepted_of_201 :
      (o : Outcome AuthResult) (r : Issued) (k : SessionCookie)
      → signed_up o ≡ reply (answer 201 r) k
      → (u : Option StoredUser) × (o ≡ returned (accepted u r.token r.api_key))
  accepted_of_201 (threw m) r k e = cc
  accepted_of_201 (returned (refused m)) r k e = cc
  accepted_of_201 (returned (accepted u token key)) r k e = (u, cc)

  passed_with :
      (h : Headers) (users : UserStore) (token : String) (u : StoredUser)
      → get_request_token decode h ≡ token
      → token ≢ ""
      → get_user_from_token c token users ≡ some u
      → require_auth c decode h users ≡ passed u
  unfolding require_auth
  passed_with h users token u same named accepted_as =
      ground (arith, same, accepted_as, eq_iff token "")

  token_of :
      (now : ℕ) (id secret email password : String)
      → issue_session_token c (new_user now id email (c.hash_password password))
        ≡ issue_session_token c (signed_up_user now id secret email password)
  unfolding issue_session_token current_session_version
  token_of now id secret email password = refl

  row_of_new :
      (now : ℕ) (id secret email password : String) (users : UserStore)
      → Dict.get
          (update id
            (λ u. record u { api_key_ids = hash_api_key c.sha256 secret ∷ [] })
            (create now id email (c.hash_password password) users).1).users
          id
        ≡ some (signed_up_user now id secret email password)
  unfolding create
  row_of_new now id secret email password users =
      row-update c id _ (new_user now id email (c.hash_password password)) _ (
        ground (
          arith,
          get-set users.users id id (new_user now id email (c.hash_password password)),
          eq_refl id,
        ))

  -- Once signing up is answered with 201: a request with the token of the answer passes as the new
  -- account, which is on the free tier and has one key, and the key of the answer is found in the
  -- store, active and on the free tier; it is the one of the account. The token of the account is taken
  -- to be verified and not empty, and the fresh key to look like one.
  pub post_signup-require_auth :
      (w : Write) (now : ℕ) (id secret : String) (body : Credentials) (users : UserStore)
      (s : Store) (r : Issued) (k : SessionCookie) (h : Headers)
      → let user = signed_up_user now id secret (get_or body.email "") (get_or body.password "") in
        c.verify (issue_session_token c user) ≡ some (claims_of c user)
        → let user =
            signed_up_user now id secret (get_or body.email "") (get_or body.password "") in
          issue_session_token c user ≢ ""
          → IsHexDigest c.sha256
          → is_plaintext_api_key secret ≡ true
          → is_api_key_hash secret ≡ false
          → id ≢ ""
          → (post_signup c decode w now id secret body users s).0 ≡ reply (answer 201 r) k
          → get_request_token decode h ≡ r.token
          → let after = (post_signup c decode w now id secret body users s).1 in
            let user =
              signed_up_user now id secret (get_or body.email "") (get_or body.password "") in
            (require_auth c decode h after.0 ≡ passed user)
            × (r.api_key ≡ some secret)
            × (get_api_key c.sha256 secret after.1
                ≡ some (new_api_key c.sha256 now secret ("User: " ++ get_or body.email "") free))
  unfolding post_signup issue_session_token
  post_signup-require_auth w now id secret body users s r k h sound signs hex plain raw named e
        same =
      let email = get_or body.email "" in
      let password = get_or body.password "" in
      let user = signed_up_user now id secret email password in
      let (u, done) = accepted_of_201 _ r k e in
      let whole = signup-created w now id secret email password users s u r.token r.api_key done in
      let result = sym done ∙ ap (λ x. x.0) whole in
      let token : r.token ≡ issue_session_token c user =
        (ground (arith, result)) ∙ token_of now id secret email password in
      let row =
        ap (λ x. Dict.get x.1.0.users id) whole ∙ row_of_new now id secret email password users in
      let accepted_as = get_user_from_token-issue_session_token c user _ sound named row in
      let found =
        (get_api_key-create_api_key c.sha256 w now secret ("User: " ++ email) free s hex plain
          raw).0 in
      (
        passed_with h _ (issue_session_token c user) user (same ∙ token) signs accepted_as,
        ground (arith, result),
        ap (λ x. get_api_key c.sha256 secret x.1.1) whole ∙ found,
      )

  caller_token :
      (h : Headers) (users : UserStore) (u : StoredUser)
      → require_auth c decode h users ≡ passed u
      → ((get_request_token decode h == "") ≡ false)
        × (get_user_from_token c (get_request_token decode h) users ≡ some u)
  unfolding require_auth
  caller_token h users u e = (ground arith, ground arith)

  verified_payload :
      (token : String) (users : UserStore) (u : StoredUser)
      → get_user_from_token c token users ≡ some u
      → (p : SessionPayload) × (verify_token c token ≡ some p)
  unfolding get_user_from_token
  verified_payload token users u e = elim (Option-cases (verify_token c token)) [
    | inl none_ ↦ absurd (ground (arith, none_))
    | inr found ↦ found
  ]

  -- Once a request is answered by logging out, no request passes as that account with a token that was
  -- good before, whatever device it comes from, if every account stands under its own id.
  pub post_logout-require_auth :
      (h other : Headers) (users : UserStore) (u : StoredUser)
      → ((i : String) (v : StoredUser) → Dict.get users.users i ≡ some v → v.id ≡ i)
      → request_user c decode h users ≡ some u
      → require_auth c decode other users ≡ passed u
      → require_auth c decode other (post_logout c decode h users).1
        ≡ Guarded.refused 401 invalid_auth
  unfolding post_logout require_auth
  post_logout-require_auth h other users u own caller before =
      let token = get_request_token decode other in
      let named = caller_token other users u before in
      let (p, e) = verified_payload token users u named.1 in
      let row = row_of_accepted c token p u users e named.1 in
      let gone = get_user_from_token-revoke_user_sessions c token p u users e named.1 in
      let after =
        ap (λ i. get_user_from_token c token (revoke_user_sessions i users).1) (own p.user_id u row)
        ∙ gone in
      rw (caller, post_logout) (ground (arith, after, named.0))
