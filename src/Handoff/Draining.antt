-- ===== src/Handoff/Draining.antt =====
-- The main thread alone, from each place in its loop, while the producing thread rests.
use poc_event_manager.Prelude.{
  ℕ, zero, suc, ◌+◌, ◌≤◌, ◌≡◌, refl, ap, sym, ◌∙◌, subst, >>=-eq-some, some-cancel, true, false,
  Option, some, List, [], ◌∷◌, ◌++◌, append-nil, append_assoc, length, arith, ◌>>=◌,
}
use poc_event_manager.Handoff.Defs.{
  signal_first, waiting, testing, reading, resetting, draining, consumer, State, pop_step,
  consumer_step, step,
}

module _ {ℓ} {E : Type ℓ} where
  -- The main thread alone.
  unfoldable pub turns : ℕ → State E → Option (State E)
  unfolding step
  turns zero s = some s
  turns (suc n) s = step signal_first consumer s >>= turns n

  -- Everything arrived, in order, and the main thread sleeps.
  pub record IsServed (s t : State E) : Type ℓ where
    pub asleep : t.consumer_pc ≡ waiting
    pub empty : t.queue ≡ []
    pub arrived : t.received ≡ s.received ++ s.queue
    pub drained : t.pending ≡ s.pending
    pub same_flag : t.fired ≡ s.fired
    pub same_producer : t.producer_pc ≡ s.producer_pc

  drain_all :
      (q : List E) (s : State E)
      → s.queue ≡ q
      → s.consumer_pc ≡ draining
      → (t : State E) × (turns (suc (length q)) s ≡ some t) × IsServed s t
  unfolding turns consumer_step pop_step
  drain_all [] s e c = (
    record s { consumer_pc = waiting },
    ground (arith),
    record {
      asleep = refl;
      empty = e;
      arrived = sym (ap (◌++◌ s.received) e ∙ append-nil s.received);
      drained = refl;
      same_flag = refl;
      same_producer = refl;
    },
  )
  drain_all (x ∷ rest) s e c =
      let (t, h, d) =
        drain_all rest (record s { queue = rest; received = s.received ++ x ∷ [] }) refl c in
      (
        t,
        ground (arith, h),
        record {
          asleep = d.asleep;
          empty = d.empty;
          arrived =
              d.arrived ∙ append_assoc s.received (x ∷ []) rest ∙ sym (ap (◌++◌ s.received) e);
          drained = d.drained;
          same_flag = d.same_flag;
          same_producer = d.same_producer;
        },
      )

  -- Within the length of the queue and `k` more steps, the main thread alone gets everything, and
  -- then sleeps with no byte in the pipe.
  pub record Settles (k : ℕ) (s : State E) : Type ℓ where
    pub count : ℕ
    pub within : count ≤ length s.queue + k
    pub last : State E
    pub runs : turns count s ≡ some last
    pub asleep : last.consumer_pc ≡ waiting
    pub empty : last.queue ≡ []
    pub arrived : last.received ≡ s.received ++ s.queue
    pub silent : last.pending ≡ 0

  pub later :
      (k : ℕ) (s s' : State E)
      → step signal_first consumer s ≡ some s'
      → s'.queue ≡ s.queue
      → s'.received ≡ s.received
      → Settles k s'
      → Settles (suc k) s
  unfolding turns
  later k s s' h q r d = record {
    count = suc d.count;
    within = subst (λ (l : List E). suc d.count ≤ length l + suc k) q (omega (arith, d.within));
    last = d.last;
    runs = ap (λ o. o >>= turns d.count) h ∙ d.runs;
    asleep = d.asleep;
    empty = d.empty;
    arrived = d.arrived ∙ ap (λ l. l ++ s'.queue) r ∙ ap (◌++◌ s.received) q;
    silent = d.silent;
  }

  pub from_draining : (s : State E) → s.consumer_pc ≡ draining → s.pending ≡ 0 → Settles 1 s
  from_draining s c p =
      let (t, h, d) = drain_all s.queue s refl c in
      record {
        count = suc (length s.queue);
        within = omega arith;
        last = t;
        runs = h;
        asleep = d.asleep;
        empty = d.empty;
        arrived = d.arrived;
        silent = d.drained ∙ p;
      }

  pub from_resetting : (s : State E) → s.consumer_pc ≡ resetting → s.pending ≡ 0 → Settles 2 s
  unfolding step consumer_step
  from_resetting s c p =
      let s' = record s { consumer_pc = draining; fired = false } in
      later 1 s s' (ground arith) refl refl (from_draining s' refl p)

  pub from_reading : (s : State E) → s.consumer_pc ≡ reading → s.pending ≡ 1 → Settles 3 s
  unfolding step consumer_step
  from_reading s c p =
      let s' = record s { consumer_pc = resetting; pending = 0 } in
      later 2 s s' (ground arith) refl refl (from_resetting s' refl refl)

  pub from_testing :
      (s : State E) → s.consumer_pc ≡ testing → s.fired ≡ true → s.pending ≡ 1 → Settles 4 s
  unfolding step consumer_step
  from_testing s c f p =
      let s' = record s { consumer_pc = reading } in
      later 3 s s' (ground arith) refl refl (from_reading s' refl p)

  pub from_waiting :
      (s : State E) → s.consumer_pc ≡ waiting → s.fired ≡ true → s.pending ≡ 1 → Settles 5 s
  unfolding step consumer_step
  from_waiting s c f p =
      let s' = record s { consumer_pc = testing } in
      later 4 s s' (ground arith) refl refl (from_testing s' refl f p)

  turns-turns :
      (m n : ℕ) (s : State E) {t u : State E}
      → turns m s ≡ some t
      → turns n t ≡ some u
      → turns (m + n) s ≡ some u
  unfolding turns
  turns-turns zero n s {t} {u} h k =
      subst (λ a. turns a s ≡ some u) (omega arith) (ap (turns n) (some-cancel h) ∙ k)
  turns-turns (suc m) n s {t} {u} h k =
      let (s', first, rest) = >>=-eq-some (step signal_first consumer s) (turns m) h in
      let all : turns (suc (m + n)) s ≡ some u =
        ap (λ o. o >>= turns (m + n)) first ∙ turns-turns m n s' rest k in
      subst (λ a. turns a s ≡ some u) {x = suc (m + n)} (omega arith) all

  -- A byte that came while the queue was emptied costs one more round.
  pub drain_again :
      (s : State E) → s.consumer_pc ≡ draining → s.fired ≡ true → s.pending ≡ 1 → Settles 6 s
  drain_again s c f p =
      let (t, h, d) = drain_all s.queue s refl c in
      let r = from_waiting t d.asleep (d.same_flag ∙ f) (d.drained ∙ p) in
      record {
        count = suc (length s.queue) + r.count;
        within = omega (arith, subst (λ (l : List E). r.count ≤ length l + 5) d.empty r.within);
        last = r.last;
        runs = turns-turns (suc (length s.queue)) r.count s h r.runs;
        asleep = r.asleep;
        empty = r.empty;
        arrived = r.arrived ∙ ap (◌++◌ t.received) d.empty ∙ append-nil t.received ∙ d.arrived;
        silent = r.silent;
      }

  pub more : (j k : ℕ) (s : State E) → j ≤ k → Settles j s → Settles k s
  more j k s le d = record {
    count = d.count;
    within = omega (arith, d.within, le);
    last = d.last;
    runs = d.runs;
    asleep = d.asleep;
    empty = d.empty;
    arrived = d.arrived;
    silent = d.silent;
  }

  pub stay : (s : State E) → s.consumer_pc ≡ waiting → s.queue ≡ [] → s.pending ≡ 0 → Settles 6 s
  unfolding turns
  stay s c q p = record {
    count = 0;
    within = omega arith;
    last = s;
    runs = refl;
    asleep = c;
    empty = q;
    arrived = sym (ap (◌++◌ s.received) q ∙ append-nil s.received);
    silent = p;
  }
