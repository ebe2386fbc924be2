-- ===== src/Simo/Steps.antt =====
-- ddbb_server/src/omni_paxos_server/op_connection.rs: the senders of a server, which run side by side over the
-- same buffer. A step is what one of them does between two points where another can run.
use ik2203_distributed_coord.Prelude.{
  ℕ, ◌≡◌, refl, sym, ◌∙◌, ap, List, [], ◌∷◌, ◌++◌, ◌==◌, Bool-cases, inl, inr, ◌⊎◌, done,
  if◌then◌else◌, control, map,
}
use mathlib.Core.List.{append_assoc, map-append}
use ik2203_distributed_coord.Simo.{
  connecting, looking, taking, writing, reconnecting, OmniSimo, contains, set_phase, new_simo,
  send_message, connect, take_front, write_done, write_failed, look_at, look,
}

-- What became of a message that left the buffer.
pub data Fate (M : Type 0) : Type 0 where
  discarded : M → Fate M
  taken : ℕ → M → Fate M

abbrev pub message_of : {M : Type 0} → Fate M → M
message_of (discarded m) = m
message_of (taken id m) = m

module _ {M : Type 0} (receiver : M → ℕ) where
  -- what a look removes from the buffer
  abbrev pub discards : List ℕ → List M → List (Fate M)
  discards connected [] = []
  discards connected (m ∷ rest) = if contains connected (receiver m) then [] else discarded m ∷ []

  -- The runs of a server's senders, with the messages that were queued and the fates of those that left
  -- the buffer, in order. Any of the senders may take the next step, and the server may queue a message;
  -- the buffer of incoming messages changes at any time.
  pub data Run : OmniSimo M → List M → List (Fate M) → Type 0 where
    start : Run new_simo [] []
    queues :
        (s : OmniSimo M) (q : List M) (l : List (Fate M)) (m : M)
        → Run s q l
        → Run (send_message m s) (q ++ m ∷ []) l
    incoming :
        (s : OmniSimo M) (q : List M) (l : List (Fate M)) (buffer : List M)
        → Run s q l
        → Run (record s { incoming_buffer = buffer }) q l
    connects :
        (s : OmniSimo M) (q : List M) (l : List (Fate M)) (id : ℕ)
        → Run s q l
        → (s.phase id ≡ connecting) ⊎ (s.phase id ≡ reconnecting)
        → Run (connect id s) q l
    looks :
        (s : OmniSimo M) (q : List M) (l : List (Fate M)) (id : ℕ)
        → Run s q l
        → s.phase id ≡ looking
        → Run (look receiver id s) q (l ++ discards s.connected s.outgoing_buffer)
    takes :
        (s t : OmniSimo M) (q : List M) (l : List (Fate M)) (id : ℕ) (m : M) (rest : List M)
        → Run s q l
        → s.phase id ≡ taking
        → s.outgoing_buffer ≡ m ∷ rest
        → take_front id s ≡ done t
        → Run t q (l ++ taken id m ∷ [])
    writes :
        (s : OmniSimo M) (q : List M) (l : List (Fate M)) (id : ℕ) (m : M)
        → Run s q l
        → s.phase id ≡ writing m
        → Run (write_done id m s) q l
    fails :
        (s : OmniSimo M) (q : List M) (l : List (Fate M)) (id : ℕ) (m : M)
        → Run s q l
        → s.phase id ≡ writing m
        → Run (write_failed id s) q l

  look_at-splits :
      (s : OmniSimo M) (id : ℕ) (buffer : List M)
      → s.outgoing_buffer ≡ buffer
      → map message_of (discards s.connected buffer)
          ++ (look_at receiver id buffer s).outgoing_buffer
        ≡ buffer
  unfolding look_at control
  look_at-splits s id [] e = e
  look_at-splits s id (m ∷ rest) e = elim (Bool-cases (contains s.connected (receiver m))) [
    | inr c ↦ rw c refl
    | inl c ↦ elim (Bool-cases (receiver m == id)) [ inl o ↦ rw (c, o) e | inr o ↦ rw (c, o) e ]
  ]

  pub take_front-rest :
      (s t : OmniSimo M) (id : ℕ) (m : M) (rest : List M)
      → s.outgoing_buffer ≡ m ∷ rest
      → take_front id s ≡ done t
      → t ≡ record s { outgoing_buffer = rest; phase = set_phase s.phase id (writing m) }
  unfolding take_front
  take_front-rest s t id m rest e d = cc (rw e at d)

  -- What was queued is what left the buffer, in order, and then what is in it: no message overtakes
  -- another, and none leaves without being taken or discarded.
  pub queued-in_order :
      (s : OmniSimo M) (q : List M) (l : List (Fate M))
      → Run s q l
      → q ≡ map message_of l ++ s.outgoing_buffer
  unfolding new_simo send_message connect take_front write_done write_failed look control
  queued-in_order _ _ _ start = refl
  queued-in_order _ _ _ (queues s q l m r) =
      ap (λ x. x ++ m ∷ []) (queued-in_order s q l r)
      ∙ append_assoc (map message_of l) s.outgoing_buffer (m ∷ [])
  queued-in_order _ _ _ (incoming s q l buffer r) = queued-in_order s q l r
  queued-in_order _ _ _ (connects s q l id r h) = queued-in_order s q l r
  queued-in_order _ _ _ (looks s q l id r h) =
      queued-in_order s q l r
      ∙ ap (λ x. map message_of l ++ x) (sym (look_at-splits s id s.outgoing_buffer refl))
      ∙ sym (append_assoc (map message_of l) _ _)
      ∙ ap (λ x. x ++ (look receiver id s).outgoing_buffer)
          (sym (map-append message_of l (discards s.connected s.outgoing_buffer)))
  queued-in_order _ _ _ (takes s t q l id m rest r h e d) =
      let p : t.outgoing_buffer ≡ rest =
        ap (λ x. x.outgoing_buffer) (take_front-rest s t id m rest e d) in
      queued-in_order s q l r
      ∙ ap (λ x. map message_of l ++ x) (e ∙ ap (λ x. m ∷ x) (sym p))
      ∙ sym (append_assoc (map message_of l) (m ∷ []) t.outgoing_buffer)
      ∙ ap (λ x. x ++ t.outgoing_buffer) (sym (map-append message_of l (taken id m ∷ [])))
  queued-in_order _ _ _ (writes s q l id m r h) = queued-in_order s q l r
  queued-in_order _ _ _ (fails s q l id m r h) = queued-in_order s q l r
