-- ===== src/Push/Devices.antt =====
-- Which devices a delivery touches.
use money_management_app.Prelude.{
  ℕ, ◌≤◌, ◌≡◌, ◌≢◌, refl, sym, ◌∙◌, Bool, true, Option, none, some, String, List, [], ◌∷◌, inl, inr,
  arith, Bool-cases, map, filter, All, All-map, All-filter, length,
}
use money_management_app.Orm.Client.{Client}
use money_management_app.Orm.SoftDelete.{Action}
use money_management_app.Orm.Query.{
  having, reach, find_all-filter, update_many, update_many-replace,
}
use money_management_app.Orm.Rows.{UniqueIds, foreign, foreign-replace, All-replace}
use money_management_app.Push.Schema.{DeviceToken, device_tokens, ExpoPushTicket, PushConfig}
use money_management_app.Push.Service.{
  set_inactive, set_last_used, is_active_of, id_in, is_unregistered, is_expo_token, bad_tokens,
  process_tickets, disable, message_to, deliver, send_to_tokens, send_to_user,
}

-- At most one id for each ticket of a device that is not registered any more.
bad_tokens-length :
    (ks : List ExpoPushTicket) (ts : List DeviceToken)
    → length (bad_tokens ks ts) ≤ length (filter is_unregistered ks)
unfolding bad_tokens
bad_tokens-length [] ts = omega arith
bad_tokens-length (k ∷ ks) [] = omega arith
bad_tokens-length (k ∷ ks) (t ∷ ts) = ground (arith, bad_tokens-length ks ts)

-- Every id is that of a device that the message went to.
bad_tokens-of :
    (P : ℕ → Type 0) (ks : List ExpoPushTicket) (ts : List DeviceToken)
    → All (λ t. P t.id) ts
    → All P (bad_tokens ks ts)
unfolding bad_tokens
bad_tokens-of P [] ts h = tt
bad_tokens-of P (k ∷ ks) [] h = tt
bad_tokens-of P (k ∷ ks) (t ∷ ts) h = ground (arith, bad_tokens-of P ks ts h.1)

All-both :
    {A : Type 0} (P Q : A → Type 0) (xs : List A) → All P xs → All Q xs → All (λ x. P x × Q x) xs
All-both P Q [] p q = tt
All-both P Q (x ∷ xs) p q = ((p.0, q.0), All-both P Q xs p.1 q.1)

All-each : {A : Type 0} {P : A → Type 0} (xs : List A) → ((x : A) → P x) → All P xs
All-each [] h = tt
All-each (x ∷ xs) h = (h x, All-each xs h)

abbrev pub id_of : DeviceToken → ℕ
id_of t = t.id

abbrev pub owner : DeviceToken → ℕ
owner t = t.user_id

-- The row of the id belongs to the user.
abbrev pub OwnedIn : (user_id : ℕ) → List DeviceToken → ℕ → Type 0
OwnedIn user_id rows i = All (λ r. r.id ≡ i → r.user_id ≡ user_id) rows

filter-OwnedIn :
    (user_id : ℕ) (p : DeviceToken → Bool) (rows : List DeviceToken)
    → ((r : DeviceToken) → p r ≡ true → r.user_id ≡ user_id)
    → UniqueIds id_of rows
    → All (λ t. OwnedIn user_id rows t.id) (filter p rows)
filter-OwnedIn user_id p [] own u = tt
filter-OwnedIn user_id p (x ∷ rows) own u = elim (Bool-cases (p x)) [
  | inl e ↦ rw e (
    ((λ k. own x e), All-map (λ s ne k. absurd (ne k)) rows u.0),
    All-map (λ t h. ((λ k. own x e), h)) (filter p rows) (filter-OwnedIn user_id p rows own u.1),
  )
  | inr e ↦ rw e (
      All-map (λ t h. ((λ k. absurd (h.0 (sym k))), h.1)) (filter p rows)
        (All-both (λ s. s.id ≢ x.id) (λ t. OwnedIn user_id rows t.id) (filter p rows)
          (All-filter (λ s. s.id ≢ x.id) p rows u.0) (filter-OwnedIn user_id p rows own u.1)))
]

id_in-OwnedIn :
    (user_id : ℕ) (rows : List DeviceToken) (ids : List ℕ)
    → All (OwnedIn user_id rows) ids
    → All (λ r. id_in ids r ≡ true → r.user_id ≡ user_id) rows
id_in-OwnedIn user_id rows [] h = All-each rows (λ r k. cc)
id_in-OwnedIn user_id rows (i ∷ ids) h =
    All-map (λ r b k. ground arith) rows
      (All-both (λ r. r.id ≡ i → r.user_id ≡ user_id)
        (λ r. id_in ids r ≡ true → r.user_id ≡ user_id) rows h.0
        (id_in-OwnedIn user_id rows ids h.1))

asked-owner :
    (user_id : ℕ) (r : DeviceToken)
    → reach device_tokens Action.find_many (having (is_active_of user_id)) r ≡ true
    → r.user_id ≡ user_id
unfolding reach
asked-owner user_id r h = ground arith

module _ (orm : Client) (user_id : ℕ) where
  -- A write to rows of some ids that belong to the user leaves the devices of the others alone.
  write-foreign :
      (f : DeviceToken → DeviceToken) (ids : List ℕ) (rows : List DeviceToken)
      → ((r : DeviceToken) → owner (f r) ≡ owner r)
      → All (OwnedIn user_id rows) ids
      → foreign id_of owner user_id (update_many orm device_tokens (having (id_in ids)) f rows)
        ≡ foreign id_of owner user_id rows
  unfolding reach
  write-foreign f ids rows keep h =
      rw (update_many-replace orm device_tokens (having (id_in ids)) rows f) (
        foreign-replace id_of owner user_id
          (reach device_tokens Action.update_many (having (id_in ids))) f rows keep
          (id_in-OwnedIn user_id rows ids h))

  write-OwnedIn :
      (f : DeviceToken → DeviceToken) (ids : List ℕ) (rows : List DeviceToken) (i : ℕ)
      → ((r : DeviceToken)
          → (r.id ≡ i → r.user_id ≡ user_id)
          → (f r).id ≡ i
          → (f r).user_id ≡ user_id)
      → OwnedIn user_id rows i
      → OwnedIn user_id (update_many orm device_tokens (having (id_in ids)) f rows) i
  write-OwnedIn f ids rows i keep h =
      rw (update_many-replace orm device_tokens (having (id_in ids)) rows f) (
        All-replace id_of (λ r. r.id ≡ i → r.user_id ≡ user_id)
          (reach device_tokens Action.update_many (having (id_in ids))) f rows keep h)

  disable-foreign :
      (bad : List ℕ) (rows : List DeviceToken)
      → All (OwnedIn user_id rows) bad
      → foreign id_of owner user_id (disable orm bad rows) ≡ foreign id_of owner user_id rows
  unfolding disable
  disable-foreign [] rows h = refl
  disable-foreign (b ∷ bs) rows h = write-foreign set_inactive (b ∷ bs) rows (λ r. refl) h

  disable-OwnedIn :
      (bad : List ℕ) (rows : List DeviceToken) (i : ℕ)
      → OwnedIn user_id rows i
      → OwnedIn user_id (disable orm bad rows) i
  unfolding disable
  disable-OwnedIn [] rows i h = h
  disable-OwnedIn (b ∷ bs) rows i h = write-OwnedIn set_inactive (b ∷ bs) rows i (λ r k. k) h

  deliver-foreign :
      (answer : Option (List ExpoPushTicket)) (ts rows : List DeviceToken)
      → All (λ t. OwnedIn user_id rows t.id) ts
      → (foreign id_of owner user_id (deliver orm answer ts rows).1
          ≡ foreign id_of owner user_id rows)
        × ((i : ℕ) → OwnedIn user_id rows i → OwnedIn user_id (deliver orm answer ts rows).1 i)
  unfolding deliver process_tickets
  deliver-foreign none ts rows h = (refl, λ i k. k)
  deliver-foreign (some ks) ts rows h = (
    disable-foreign (bad_tokens ks ts) rows (bad_tokens-of (OwnedIn user_id rows) ks ts h),
    λ i k. disable-OwnedIn (bad_tokens ks ts) rows i k,
  )

  tokens-foreign :
      (config : PushConfig) (title body : String) (now : ℕ) (ts rows : List DeviceToken)
      → All (λ t. OwnedIn user_id rows t.id) ts
      → foreign id_of owner user_id (send_to_tokens orm config title body now ts rows).1
        ≡ foreign id_of owner user_id rows
  unfolding send_to_tokens
  tokens-foreign config title body now [] rows h = refl
  tokens-foreign config title body now (t ∷ ts) rows h =
      let answer = config.post (map (message_to title body) (t ∷ ts)) in
      let after = (deliver orm answer (t ∷ ts) rows).1 in
      let (same, kept) = deliver-foreign answer (t ∷ ts) rows h in
      write-foreign (set_last_used now) (map (λ u. u.id) (t ∷ ts)) after (λ r. refl)
        (ids after (t ∷ ts) kept h)
      ∙ same
    where
      ids :
          (after us : List DeviceToken)
          → ((i : ℕ) → OwnedIn user_id rows i → OwnedIn user_id after i)
          → All (λ u. OwnedIn user_id rows u.id) us
          → All (OwnedIn user_id after) (map (λ u. u.id) us)
      ids after [] k a = tt
      ids after (u ∷ us) k a = (k u.id a.0, ids after us k a.1)

  -- Sending to a user, whatever Expo answers, leaves the devices of all other users as they are, if ids
  -- are unique.
  pub send_to_user-isolated :
      (config : PushConfig) (title body : String) (now : ℕ) (rows : List DeviceToken)
      → UniqueIds id_of rows
      → foreign id_of owner user_id (send_to_user orm config user_id title body now rows).1
        ≡ foreign id_of owner user_id rows
  unfolding send_to_user send_to_tokens
  send_to_user-isolated config title body now rows u = elim (Bool-cases config.enabled) [
    | inr e ↦ rw e refl
    | inl e ↦
        rw (e, find_all-filter orm device_tokens (having (is_active_of user_id)) rows)
          (tokens-foreign config title body now
            (filter (λ t. is_expo_token t.token)
              (filter (reach device_tokens Action.find_many (having (is_active_of user_id))) rows))
            rows
            (All-filter (λ t. OwnedIn user_id rows t.id) (λ t. is_expo_token t.token)
              (filter (reach device_tokens Action.find_many (having (is_active_of user_id))) rows)
              (filter-OwnedIn user_id
                (reach device_tokens Action.find_many (having (is_active_of user_id))) rows
                (asked-owner user_id) u)))
  ]
