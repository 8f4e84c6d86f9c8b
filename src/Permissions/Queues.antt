-- ===== src/Permissions/Queues.antt =====
-- The queues of infra/permission/in_memory.py and their size.
use meta_agent.Common.{
  ℕ, suc, ◌≤◌, String, ◌≡◌, refl, ap, Bool, true, ◌&&◌, Option, none, some, List, [], ◌∷◌, ◌++◌,
  arith, leb, length, Bool-cases, inl, inr,
}
use meta_agent.Dict.{Dict, get, has, put}
use meta_agent.Permissions.{
  PermissionPrompt, PermissionDecision, Queue, Gate, is_full, offer, offer_all, open_prompt, fanned,
  rest_of, deliver, delivered, settle, subscribe, taken, without, received_in, receive,
  unsubscribed_in, unsubscribe, put_or_pop, or_no_queues, channel_key, Op, opened, decided, settled,
  subscribed, received, unsubscribed, apply,
}
use meta_agent.Permissions.Entries.{
  all_entries, all_entries-put, all_entries-pop, all_entries-get, left_of, right_of,
}

module _ (maxsize : ℕ) where
  unfoldable pub all_fit : List Queue → Bool
  all_fit [] = true
  all_fit (q ∷ queues) = leb (length q.waiting) maxsize && all_fit queues

  abbrev pub fits : String → List Queue → Bool
  fits key queues = all_fit queues

  -- every queue of every channel holds at most `maxsize` prompts
  abbrev pub Bounded : Gate → Type 0
  Bounded g = all_entries fits g.channels ≡ true

length-last :
    (ps : List PermissionPrompt) (p : PermissionPrompt) → length (ps ++ p ∷ []) ≡ suc (length ps)
length-last [] p = refl
length-last (x ∷ ps) p = ap suc (length-last ps p)

length-rest : (ps : List PermissionPrompt) → length (rest_of ps) ≤ length ps
length-rest [] = omega arith
length-rest (p ∷ ps) = omega arith

module _ (maxsize : ℕ) (room : 1 ≤ maxsize) where
  rest-fits :
      (ps : List PermissionPrompt)
      → leb (length ps) maxsize ≡ true
      → leb (suc (length (rest_of ps))) maxsize ≡ true
  rest-fits [] h = ground (arith, room)
  rest-fits (p ∷ ps) h = h

  offer-fits :
      (p : PermissionPrompt) (q : Queue)
      → leb (length q.waiting) maxsize ≡ true
      → leb (length (offer maxsize p q).waiting) maxsize ≡ true
  unfolding offer
  offer-fits p q h = elim (Bool-cases (is_full maxsize q)) [
    | inl full ↦ rw (full, length-last (rest_of q.waiting) p) (rest-fits q.waiting h)
    | inr free ↦ rw (free, length-last q.waiting p) (ground (arith, h, free))
  ]

  offer_all-fits :
      (p : PermissionPrompt) (queues : List Queue)
      → all_fit maxsize queues ≡ true
      → all_fit maxsize (offer_all maxsize p queues) ≡ true
  unfolding offer_all all_fit
  offer_all-fits p [] h = refl
  offer_all-fits p (q ∷ queues) h =
      rw
        (
          offer-fits p q (left_of _ _ h),
          offer_all-fits p queues (right_of (leb (length q.waiting) maxsize) _ h),
        )
        refl

  taken-fits :
      (id : ℕ) (queues : List Queue)
      → all_fit maxsize queues ≡ true
      → all_fit maxsize (taken id queues) ≡ true
  unfolding taken all_fit
  taken-fits id [] h = refl
  taken-fits id (q ∷ queues) h = ground (arith, h, taken-fits id queues, length-rest q.waiting)

  without-fits :
      (id : ℕ) (queues : List Queue)
      → all_fit maxsize queues ≡ true
      → all_fit maxsize (without id queues) ≡ true
  unfolding without all_fit
  without-fits id [] h = refl
  without-fits id (q ∷ queues) h = ground (arith, h, without-fits id queues)

  empty-fits : all_fit maxsize [] ≡ true
  unfolding all_fit
  empty-fits = refl

  append-fits :
      (queues : List Queue) (q : Queue)
      → all_fit maxsize queues ≡ true
      → leb (length q.waiting) maxsize ≡ true
      → all_fit maxsize (queues ++ q ∷ []) ≡ true
  unfolding all_fit
  append-fits [] q h hq = rw hq refl
  append-fits (r ∷ queues) q h hq = ground (arith, h, append-fits queues q, hq)

  fanned-Bounded :
      (p : PermissionPrompt) (g : Gate) (queues : Option (List Queue))
      → get g.channels (channel_key p.tenant_id p.task_id) ≡ queues
      → Bounded maxsize g
      → Bounded maxsize (fanned maxsize p queues g)
  fanned-Bounded p g none at h = h
  fanned-Bounded p g (some queues) at h =
      all_entries-put (fits maxsize) g.channels (channel_key p.tenant_id p.task_id) _ h
        (offer_all-fits p queues (all_entries-get (fits maxsize) g.channels _ queues h at))

  subscribed-fits :
      (g : Gate) (key : String) (queues : Option (List Queue)) (id : ℕ)
      → get g.channels key ≡ queues
      → Bounded maxsize g
      → all_fit maxsize (or_no_queues queues ++ record { id = id; waiting = [] } ∷ []) ≡ true
  subscribed-fits g key none id at h = append-fits [] _ empty-fits (ground (arith, room))
  subscribed-fits g key (some queues) id at h =
      append-fits queues _ (all_entries-get (fits maxsize) g.channels key queues h at)
        (ground (arith, room))

  put_or_pop-Bounded :
      (channels : Dict (List Queue)) (key : String) (queues : List Queue)
      → all_entries (fits maxsize) channels ≡ true
      → all_fit maxsize queues ≡ true
      → all_entries (fits maxsize) (put_or_pop channels key queues) ≡ true
  put_or_pop-Bounded channels key [] h hq = all_entries-pop (fits maxsize) channels key h
  put_or_pop-Bounded channels key (q ∷ queues) h hq =
      all_entries-put (fits maxsize) channels key (q ∷ queues) h hq

  received-Bounded :
      (queues : Option (List Queue)) (key : String) (id : ℕ) (g : Gate)
      → get g.channels key ≡ queues
      → Bounded maxsize g
      → Bounded maxsize (received_in queues key id g)
  received-Bounded none key id g at h = h
  received-Bounded (some queues) key id g at h =
      all_entries-put (fits maxsize) g.channels key (taken id queues) h
        (taken-fits id queues (all_entries-get (fits maxsize) g.channels key queues h at))

  unsubscribed-Bounded :
      (queues : Option (List Queue)) (key : String) (id : ℕ) (g : Gate)
      → get g.channels key ≡ queues
      → Bounded maxsize g
      → Bounded maxsize (unsubscribed_in queues key id g)
  unsubscribed-Bounded none key id g at h = h
  unsubscribed-Bounded (some queues) key id g at h =
      put_or_pop-Bounded g.channels key (without id queues) h
        (without-fits id queues (all_entries-get (fits maxsize) g.channels key queues h at))

  delivered-Bounded :
      (d : PermissionDecision) (future : Option (Option PermissionDecision)) (g : Gate)
      → Bounded maxsize g
      → Bounded maxsize (delivered d future g)
  delivered-Bounded d none g h = h
  delivered-Bounded d (some none) g h = h
  delivered-Bounded d (some (some e)) g h = h

  open-Bounded :
      (p : PermissionPrompt) (g : Gate)
      → Bounded maxsize g
      → Bounded maxsize (open_prompt maxsize p g).1
  unfolding open_prompt
  open-Bounded p g h = elim (Bool-cases (has g.pending p.prompt_id)) [
    | inl waiting ↦ rw waiting h
    | inr free ↦ rw free (
        fanned-Bounded p (record g { pending = put g.pending p.prompt_id none })
          (get g.channels (channel_key p.tenant_id p.task_id)) refl h)
  ]

  -- With room for at least one prompt, every operation keeps every queue within its bound, whatever
  -- the order in which prompts, decisions, receivers and subscribers come.
  pub apply-Bounded :
      (op : Op) (g : Gate) → Bounded maxsize g → Bounded maxsize (apply maxsize op g)
  unfolding apply deliver settle subscribe receive unsubscribe
  apply-Bounded (opened p) g h = open-Bounded p g h
  apply-Bounded (decided d) g h = delivered-Bounded d (get g.pending d.prompt_id) g h
  apply-Bounded (settled id) g h = h
  apply-Bounded (subscribed t i) g h =
      all_entries-put (fits maxsize) g.channels (channel_key t i) _ h (
        subscribed-fits g (channel_key t i) (get g.channels (channel_key t i)) g.subscriptions refl
          h)
  apply-Bounded (received key id) g h = received-Bounded (get g.channels key) key id g refl h
  apply-Bounded (unsubscribed key id) g h =
      unsubscribed-Bounded (get g.channels key) key id g refl h
