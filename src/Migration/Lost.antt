-- ===== src/Migration/Lost.antt =====
-- scripts/migrate-to-postgres.ts with the server's start: what becomes of the webhooks.
use mathlib.Core.Path.{subst}
use xrplink.Dict.{Dict}
use xrplink.Store.{outcomes, Webhook, Outcome, returned, threw}
use xrplink.Keys.{api_key_lookup_id}
use xrplink.Store.Load.{FileRead, absent, parsed, malformed}
use xrplink.Store.Webhooks.{is_active}
use xrplink.Postgres.{Postgres, update_where, ensure_tables, init_pool, deactivate_unscoped}
use xrplink.Postgres.Webhooks.{get_webhooks_for_attestation, count_webhooks_for_api_key}
use xrplink.Migration.{
  copy_users, copy_api_keys, copy_webhooks, copy_attestations, then_file, main, create_tables,
  Sources, Target, Stats, upsert, copy_rows, copy_file, copy_files, insert_webhook,
  set_webhook_columns, row_of_webhook,
}
use xrplink.Prelude.{
  ℕ, String, ◌≡◌, refl, sym, inl, inr, Bool, false, not, ◌&&◌, ◌||◌, Option, none, some, List, [],
  ◌∷◌, arith, ◌==◌, Bool-cases, Option-cases, is_some, truthy, keep, any, All, concat,
}

-- No row has the key of an owner.
abbrev pub IsOwnerless : List Webhook → Type 0
IsOwnerless rows = All (λ h. h.api_key_id ≡ none) rows

All-update_where :
    {A : Type 0} (P : A → Type 0) (p : A → Bool) (f : A → A) (rows : List A)
    → ((row : A) → P row → P (f row))
    → All P rows
    → All P (update_where p f rows)
All-update_where P p f [] keeps h = tt
All-update_where P p f (row ∷ rows) keeps h = (
  elim (Bool-cases (p row)) [ inl e ↦ rw e (keeps row h.0) | inr e ↦ rw e h.0 ],
  All-update_where P p f rows keeps h.1,
)

All-snoc :
    {A : Type 0} (P : A → Type 0) (rows : List A) (x : A)
    → All P rows
    → P x
    → All P (concat rows (x ∷ []))
All-snoc P [] x h p = (p, tt)
All-snoc P (row ∷ rows) x h p = (h.0, All-snoc P rows x h.1 p)

upsert-All :
    {A : Type 0} (P : A → Type 0) (same : A → Bool) (set : A → A) (row : A) (rows : List A)
    → ((old : A) → P old → P (set old))
    → P row
    → All P rows
    → All P (upsert same set row rows)
unfolding upsert
upsert-All P same set row rows keeps new h = elim (Bool-cases (any same rows)) [
  | inl e ↦ rw e (All-update_where P same set rows keeps h)
  | inr e ↦ rw e (All-snoc P rows row h new)
]

insert_webhook-IsOwnerless :
    (h : Webhook) (rows next : List Webhook)
    → insert_webhook h rows ≡ returned next
    → IsOwnerless rows
    → IsOwnerless next
unfolding insert_webhook
insert_webhook-IsOwnerless h rows next e o =
    let inserted : next
        ≡ upsert (λ r. r.id == h.id) (set_webhook_columns h) (row_of_webhook h) rows =
      ground (arith, e) in
    subst IsOwnerless (sym inserted) (
      upsert-All (λ r. r.api_key_id ≡ none) _ (set_webhook_columns h) (row_of_webhook h) rows
        (λ old p. p) refl o)

module _ {A B : Type 0} (Q : List B → Type 0) (insert : A → List B → Outcome (List B))
    (keeps : (a : A) (rows next : List B) → insert a rows ≡ returned next → Q rows → Q next) where
  -- What every insert keeps, the loop keeps, also where it ends early.
  pub copy_rows-keeps :
      (entries : Dict A) (rows : List B) → Q rows → Q (copy_rows insert entries rows).1
  unfolding copy_rows
  copy_rows-keeps [] rows q = q
  copy_rows-keeps ((id, a) ∷ entries) rows q = elim (outcomes (insert a rows)) [
    | inl (m, e) ↦ rw (e, copy_rows) q
    | inr (next, e) ↦ rw (e, copy_rows) (copy_rows-keeps entries next (keeps a rows next e q))
  ]

  pub copy_file-keeps :
      (file : FileRead A) (rows : List B) → Q rows → Q (copy_file insert file rows).1
  unfolding copy_file
  copy_file-keeps absent rows q = q
  copy_file-keeps (malformed m) rows q = q
  copy_file-keeps (parsed entries) rows q = copy_rows-keeps entries rows q

-- The tables as the server finds them.
abbrev pub server_on : Target → Postgres
server_on t = record { database = t.database; initialized = false; last_error = none }

pub then_file-keeps :
    (Q : Target → Type 0) (x : Outcome ℕ × Target) (k : ℕ → Target → Outcome Stats × Target)
    → Q x.1
    → ((n : ℕ) (t : Target) → Q t → Q (k n t).1)
    → Q (then_file x k).1
then_file-keeps Q (threw m, t) k q later = q
then_file-keeps Q (returned n, t) k q later = later n t q

copy_webhooks-IsOwnerless :
    (files : Sources) (t : Target)
    → IsOwnerless t.database.webhooks
    → IsOwnerless (copy_webhooks files t).1.database.webhooks
unfolding copy_webhooks
copy_webhooks-IsOwnerless files t o =
    copy_file-keeps IsOwnerless insert_webhook insert_webhook-IsOwnerless files.webhooks
      t.database.webhooks o

copy_files-IsOwnerless :
    (files : Sources) (t : Target)
    → IsOwnerless t.database.webhooks
    → IsOwnerless (copy_files files t).1.database.webhooks
unfolding copy_files copy_attestations copy_api_keys copy_users
copy_files-IsOwnerless files t o =
    let Q : Target → Type 0 = λ u. IsOwnerless u.database.webhooks in
    then_file-keeps Q (copy_attestations files t) _ o (λ a t1 o1.
      then_file-keeps Q (copy_api_keys files t1) _ o1 (λ k t2 o2.
        then_file-keeps Q (copy_webhooks files t2) _ (copy_webhooks-IsOwnerless files t2 o2)
          (λ w t3 o3. then_file-keeps Q (copy_users files t3) _ o3 (λ u t4 o4. o4))))

main-IsOwnerless :
    (url connection : Option String) (files : Sources) (t : Target)
    → IsOwnerless t.database.webhooks
    → IsOwnerless (main url connection files t).1.database.webhooks
unfolding main create_tables
main-IsOwnerless url connection files t o = elim (Option-cases (truthy url)) [
  | inl e ↦ rw (e, main) o
  | inr (u, e) ↦ elim (Option-cases connection) [
    | inl c ↦ rw (e, c, main) (copy_files-IsOwnerless files t o)
    | inr (m, c) ↦ rw (e, c, main) o
  ]
]

-- A row without a key is in no list of webhooks to call, and counts for no key.
none_kept :
    (p : Webhook → Bool) (rows : List Webhook)
    → ((h : Webhook) → h.api_key_id ≡ none → p h ≡ false)
    → IsOwnerless rows
    → keep p rows ≡ []
none_kept p [] misses o = refl
none_kept p (h ∷ rows) misses o = rw (misses h o.0, keep) (none_kept p rows misses o.1)

deactivate_unscoped-IsOwnerless :
    (rows : List Webhook) → IsOwnerless rows → IsOwnerless (deactivate_unscoped rows)
unfolding deactivate_unscoped
deactivate_unscoped-IsOwnerless rows =
    All-update_where (λ h. h.api_key_id ≡ none)
      (λ h. not (is_some h.attestation_id) || not (is_some h.api_key_id))
      (λ h. record h { active = some false }) rows (λ h p. p)

module _ (sha256 : String → String) where
  -- Whatever webhooks the files hold, and however far the script gets: once it has run on tables in
  -- which no webhook has a key, as new tables are, and the server has started on them, no webhook is
  -- called for any attestation, and none counts for any key.
  pub main-loses_webhooks :
      (url connection : Option String) (files : Sources) (t : Target) (id key : String)
      → IsOwnerless t.database.webhooks
      → let s = (init_pool none (server_on (main url connection files t).1)).1 in
        (get_webhooks_for_attestation id s ≡ []) × (count_webhooks_for_api_key sha256 key s ≡ 0)
  unfolding init_pool ensure_tables deactivate_unscoped get_webhooks_for_attestation
      count_webhooks_for_api_key
  main-loses_webhooks url connection files t id key o =
      let rows = deactivate_unscoped (main url connection files t).1.database.webhooks in
      let started : IsOwnerless rows =
        deactivate_unscoped-IsOwnerless _ (main-IsOwnerless url connection files t o) in
      let called : Webhook → Bool = λ h.
        is_active h
        && (is_some h.api_key_id && (elim h.attestation_id [ none ↦ false | some i ↦ i == id ])) in
      let counted : Webhook → Bool = λ h.
        is_active h
        && (elim h.api_key_id [ none ↦ false | some i ↦ i == api_key_lookup_id sha256 key ]) in
      (
        rw (none_kept called rows (λ h p. ground (arith, p)) started) refl,
        rw (none_kept counted rows (λ h p. ground (arith, p)) started) refl,
      )
