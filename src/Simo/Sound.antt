-- ===== src/Simo/Sound.antt =====
-- ddbb_server/src/omni_paxos_server/op_connection.rs: when the state of the senders is sound, step by step.
use ik2203_distributed_coord.Prelude.{
  ℕ, ◌≡◌, ◌≢◌, refl, sym, ◌∙◌, ap, arith, List, [], ◌∷◌, ◌++◌, ◌==◌, ==_iff, true, false,
  Bool-cases, inl, inr, ◌⊎◌, control, false≢true,
}
use mathlib.Core.Path.{subst}
use ik2203_distributed_coord.Simo.{
  Phase, looking, taking, writing, reconnecting, OmniSimo, contains, without, set_phase,
  send_message, look_at,
}

set_phase-eq :
    {M : Type 0} (phase : ℕ → Phase M) (id other : ℕ) (p x : Phase M)
    → set_phase phase id p other ≡ x
    → ((other ≡ id) × (p ≡ x)) ⊎ ((other ≢ id) × (phase other ≡ x))
unfolding set_phase control
set_phase-eq phase id other p x h = elim (Bool-cases (other == id)) [
  | inl e ↦ inl ((==_iff other id).0 e, (rw e at h))
  | inr e ↦ inr ((λ q. false≢true (sym e ∙ (==_iff other id).1 q)), (rw e at h))
]

pub contains-without :
    (xs : List ℕ) (id other : ℕ)
    → other ≢ id
    → contains xs other ≡ true
    → contains (without xs id) other ≡ true
unfolding contains without control
contains-without [] id other n h = h
contains-without (x ∷ xs) id other n h =
    ground (arith, contains-without xs id other n, ==_iff x id, ==_iff x other)

module _ {M : Type 0} (receiver : M → ℕ) where
  -- The first message of the buffer is for the sender of `id`, which is connected.
  pub record Front (s : OmniSimo M) (id : ℕ) : Type 0 where
    pub first : M
    pub rest : List M
    pub buffer : s.outgoing_buffer ≡ first ∷ rest
    pub own : receiver first ≡ id
    pub online : contains s.connected id ≡ true

  abbrev pub Addressed : List (ℕ × M) → Type 0
  Addressed [] = Unit
  Addressed ((id, m) ∷ sent) = (receiver m ≡ id) × Addressed sent

  pub Addressed-append :
      (sent : List (ℕ × M)) (id : ℕ) (m : M)
      → Addressed sent
      → receiver m ≡ id
      → Addressed (sent ++ (id, m) ∷ [])
  Addressed-append [] id m h e = (e, tt)
  Addressed-append ((id', m') ∷ sent) id m (a, h) e = (a, Addressed-append sent id m h e)

  -- A sender that is about to take a message finds its own; it writes its own; and what was written
  -- was written to its receiver.
  pub record IsSound (s : OmniSimo M) : Type 0 where
    pub front : (id : ℕ) → s.phase id ≡ taking → Front s id
    pub own : (id : ℕ) (m : M) → s.phase id ≡ writing m → receiver m ≡ id
    pub addressed : Addressed s.written

  -- The sender of `id` goes on to phase `p`, and the first message of the others stays.
  IsSound-step :
      (s t : OmniSimo M) (id : ℕ) (p : Phase M)
      → IsSound s
      → t.phase ≡ set_phase s.phase id p
      → (p ≡ taking → Front t id)
      → ((m : M) → p ≡ writing m → receiver m ≡ id)
      → ((other : ℕ) → other ≢ id → Front s other → Front t other)
      → Addressed t.written
      → IsSound t
  IsSound-step s t id p h e f w o a = record {
    front = λ other q.
        elim (set_phase-eq s.phase id other p taking (sym (ap (λ g. g other) e) ∙ q)) [
          | inl (same, at) ↦ subst (Front t) (sym same) (f at)
          | inr (differs, at) ↦ o other differs (h.front other at)
        ];
    own = λ other m q.
        elim (set_phase-eq s.phase id other p (writing m) (sym (ap (λ g. g other) e) ∙ q)) [
          | inl (same, at) ↦ w m at ∙ sym same
          | inr (differs, at) ↦ h.own other m at
        ];
    addressed = a;
  }

  Front-first :
      (s : OmniSimo M) (id : ℕ) (m : M) (rest : List M)
      → s.outgoing_buffer ≡ m ∷ rest
      → Front s id
      → receiver m ≡ id
  Front-first s id m rest e f = let q : m ≡ f.first = cc (e, f.buffer) in ap receiver q ∙ f.own

  unread-IsSound :
      (s : OmniSimo M) (m : M) (rest : List M)
      → s.outgoing_buffer ≡ m ∷ rest
      → contains s.connected (receiver m) ≡ false
      → IsSound s
      → IsSound (record s { outgoing_buffer = rest })
  unread-IsSound s m rest e c h = record {
    front = λ id q.
        let f = h.front id q in
        absurd
          (false≢true (sym c ∙ ap (contains s.connected) (Front-first s id m rest e f) ∙ f.online));
    own = h.own;
    addressed = h.addressed;
  }

  found-IsSound :
      (s : OmniSimo M) (id : ℕ) (m : M) (rest : List M)
      → s.outgoing_buffer ≡ m ∷ rest
      → contains s.connected (receiver m) ≡ true
      → receiver m ≡ id
      → IsSound s
      → IsSound (record s { phase = set_phase s.phase id taking })
  found-IsSound s id m rest e c o h =
      IsSound-step s _ id taking h refl
        (λ _. record {
          first = m;
          rest = rest;
          buffer = e;
          own = o;
          online = sym (ap (contains s.connected) o) ∙ c;
        })
        (λ m' q. absurd (cc q))
        (λ other n f. record {
          first = f.first;
          rest = f.rest;
          buffer = f.buffer;
          own = f.own;
          online = f.online;
        })
        h.addressed

  -- A look leaves the first message of a connected sender where it is.
  pub look_at-IsSound :
      (s : OmniSimo M) (id : ℕ) (buffer : List M)
      → s.outgoing_buffer ≡ buffer
      → IsSound s
      → IsSound (look_at receiver id buffer s)
  unfolding look_at control
  look_at-IsSound s id [] e h = h
  look_at-IsSound s id (m ∷ rest) e h = elim (Bool-cases (contains s.connected (receiver m))) [
    | inr c ↦ rw c (unread-IsSound s m rest e c h)
    | inl c ↦ elim (Bool-cases (receiver m == id)) [
      | inr o ↦ rw (c, o) h
      | inl o ↦ rw (c, o) (found-IsSound s id m rest e c ((==_iff (receiver m) id).0 o) h)
    ]
  ]

  pub moved-IsSound :
      (s : OmniSimo M) (connected : List ℕ) (id : ℕ) (p : Phase M) (sent : List (ℕ × M))
      → IsSound s
      → (p ≡ looking) ⊎ (p ≡ reconnecting)
      → ((other : ℕ)
          → other ≢ id
          → contains s.connected other ≡ true
          → contains connected other ≡ true)
      → Addressed sent
      → IsSound (record s { connected = connected; phase = set_phase s.phase id p; written = sent })
  moved-IsSound s connected id p sent h k o a =
      IsSound-step s _ id p h refl
        (λ q. elim k [ inl e ↦ absurd (cc (q, e)) | inr e ↦ absurd (cc (q, e)) ])
        (λ m q. elim k [ inl e ↦ absurd (cc (q, e)) | inr e ↦ absurd (cc (q, e)) ])
        (λ other n f. record {
          first = f.first;
          rest = f.rest;
          buffer = f.buffer;
          own = f.own;
          online = o other n f.online;
        })
        a

  pub send_message-IsSound : (s : OmniSimo M) (m : M) → IsSound s → IsSound (send_message m s)
  unfolding send_message
  send_message-IsSound s m h = record {
    front = λ id q.
        let f = h.front id q in
        record {
          first = f.first;
          rest = f.rest ++ m ∷ [];
          buffer = ap (λ x. x ++ m ∷ []) f.buffer;
          own = f.own;
          online = f.online;
        };
    own = h.own;
    addressed = h.addressed;
  }

  pub incoming-IsSound :
      (s : OmniSimo M) (buffer : List M)
      → IsSound s
      → IsSound (record s { incoming_buffer = buffer })
  incoming-IsSound s buffer h = record {
    front = λ id q.
        let f = h.front id q in
        record {
          first = f.first;
          rest = f.rest;
          buffer = f.buffer;
          own = f.own;
          online = f.online;
        };
    own = h.own;
    addressed = h.addressed;
  }

  pub take_front-IsSound :
      (s : OmniSimo M) (id : ℕ) (m : M) (rest : List M)
      → s.outgoing_buffer ≡ m ∷ rest
      → s.phase id ≡ taking
      → IsSound s
      → IsSound (record s { outgoing_buffer = rest; phase = set_phase s.phase id (writing m) })
  take_front-IsSound s id m rest e q h =
      let own = Front-first s id m rest e (h.front id q) in
      IsSound-step s _ id (writing m) h refl (λ x. absurd (cc x))
        (λ m' x. let y : m ≡ m' = cc x in ap receiver (sym y) ∙ own)
        (λ other n f. absurd (n (sym (Front-first s other m rest e f) ∙ own))) h.addressed

  pub contains-cons :
      (xs : List ℕ) (id other : ℕ) → contains xs other ≡ true → contains (id ∷ xs) other ≡ true
  unfolding contains control
  contains-cons xs id other h = ground arith
