-- ===== src/Simo/Senders.antt =====
-- ddbb_server/src/omni_paxos_server/op_connection.rs: the senders between a look at the buffer and the taking
-- of the first message.
use ik2203_distributed_coord.Prelude.{ℕ, ◌≡◌, refl, sym, List, ◌∷◌, ==_iff, inl, inr, done, control}
use mathlib.Core.Path.{subst}
use ik2203_distributed_coord.Simo.{
  looking, taking, writing, reconnecting, OmniSimo, without, set_phase, new_simo, connect,
  take_front, write_done, write_failed, look,
}
use ik2203_distributed_coord.Simo.Steps.{
  Run, start, queues, incoming, connects, looks, takes, writes, fails, take_front-rest, Fate,
}
use ik2203_distributed_coord.Simo.Sound.{
  IsSound, Addressed-append, contains-without, look_at-IsSound, moved-IsSound, send_message-IsSound,
  incoming-IsSound, take_front-IsSound, contains-cons,
}

module _ {M : Type 0} (receiver : M → ℕ) where
  -- At any time of any run of the senders: a sender that has found a message of its own at the front
  -- of the buffer, and not taken it yet, has it there still, and is connected; a sender only writes
  -- messages whose receiver it serves; and so only these were written.
  pub Run-IsSound :
      (s : OmniSimo M) (q : List M) (l : List (Fate M)) → Run receiver s q l → IsSound receiver s
  unfolding new_simo connect write_done write_failed look
  Run-IsSound _ _ _ start = record {
    front = λ id q. absurd (cc q);
    own = λ id m q. absurd (cc q);
    addressed = tt;
  }
  Run-IsSound _ _ _ (queues s q l m r) = send_message-IsSound receiver s m (Run-IsSound s q l r)
  Run-IsSound _ _ _ (incoming s q l buffer r) =
      incoming-IsSound receiver s buffer (Run-IsSound s q l r)
  Run-IsSound _ _ _ (connects s q l id r k) =
      let h = Run-IsSound s q l r in
      moved-IsSound receiver s (id ∷ s.connected) id looking s.written h (inl refl)
        (λ other n c. contains-cons receiver s.connected id other c) h.addressed
  Run-IsSound _ _ _ (looks s q l id r k) =
      look_at-IsSound receiver s id s.outgoing_buffer refl (Run-IsSound s q l r)
  Run-IsSound _ _ _ (takes s t q l id m rest r k e d) =
      subst (IsSound receiver) (sym (take_front-rest receiver s t id m rest e d))
        (take_front-IsSound receiver s id m rest e k (Run-IsSound s q l r))
  Run-IsSound _ _ _ (writes s q l id m r k) =
      let h = Run-IsSound s q l r in
      moved-IsSound receiver s s.connected id looking _ h (inl refl) (λ other n c. c)
        (Addressed-append receiver s.written id m h.addressed (h.own id m k))
  Run-IsSound _ _ _ (fails s q l id m r k) =
      let h = Run-IsSound s q l r in
      moved-IsSound receiver s (without s.connected id) id reconnecting s.written h (inr refl)
        (λ other n c. contains-without s.connected id other n c) h.addressed

  take_front-front :
      (s : OmniSimo M) (id : ℕ) (m : M) (rest : List M)
      → s.outgoing_buffer ≡ m ∷ rest
      → take_front id s
        ≡ done (record s { outgoing_buffer = rest; phase = set_phase s.phase id (writing m) })
  unfolding take_front
  take_front-front s id m rest e = rw e refl

  -- A sender that comes to take a message, the others having run since its look, does not find the
  -- buffer empty, so `pop_front().unwrap()` does not panic; and the message is for its receiver.
  pub take_front-runs :
      (s : OmniSimo M) (q : List M) (l : List (Fate M)) (id : ℕ)
      → Run receiver s q l
      → s.phase id ≡ taking
      → (m : M) × (t : OmniSimo M) × (take_front id s ≡ done t)
        × (t.phase id ≡ writing m)
        × (receiver m ≡ id)
  unfolding set_phase control
  take_front-runs s q l id r k =
      let h = Run-IsSound s q l r in
      let f = h.front id k in
      (
        f.first,
        _,
        take_front-front s id f.first f.rest f.buffer,
        rw ((==_iff id id).1 refl) refl,
        f.own,
      )
