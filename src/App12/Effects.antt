-- ===== src/App12/Effects.antt =====
-- What holds of the managers at any time, and what a delivery changes.
use poc_event_manager.Prelude.{
  All, All-snoc, count_if, count_if_snoc, length-append, Bool, false, ℕ, suc, ◌+◌, ◌≡◌, refl, true,
  List, [], ◌∷◌, arith, length,
}
use poc_event_manager.Counters.{Counters}
use poc_event_manager.Queues.Spsc.{SpscQueue}
use poc_event_manager.App12.Events.{Event, status_event, control_event, serial_event}
use poc_event_manager.App12.Managers.{consume_event}
use poc_event_manager.App12.Main.{
  Ref, ref_a, ref_b, ref_c, System, manager_of, with_manager, with_manager-all, members,
}
use poc_event_manager.App12.Routing.{makes, accepts, receiver, accepts-receiver, HasIds, id_of}

abbrev pub tx : Counters → ℕ
tx k = k.tx

abbrev rx : Counters → ℕ
rx k = k.rx

abbrev is_serial : Event → Bool
is_serial (serial_event _) = true
is_serial _ = false

abbrev is_control : Event → Bool
is_control (control_event _ _) = true
is_control _ = false

-- How many events of each manager were consumed by the managers that they go to.
abbrev pub arrived : {Q : Type 0} → Ref → System Q → ℕ
arrived ref_a s = length s.c.consumed + length s.b.consumed
arrived ref_b s = count_if is_serial s.a.base.consumed
arrived ref_c s = count_if is_control s.a.base.consumed

abbrev pub is_ref : Ref → Ref → Bool
is_ref ref_a ref_a = true
is_ref ref_b ref_b = true
is_ref ref_c ref_c = true
is_ref _ _ = false

-- One manager's events that were taken by Produce and are still to be delivered.
abbrev pub debt : Ref → ℕ → Ref → ℕ
debt ref_a n ref_a = n
debt ref_b n ref_b = n
debt ref_c n ref_c = n
debt _ _ _ = 0

pub debt_zero : (p q : Ref) → debt p 0 q ≡ 0
debt_zero ref_a ref_a = refl
debt_zero ref_a ref_b = refl
debt_zero ref_a ref_c = refl
debt_zero ref_b ref_a = refl
debt_zero ref_b ref_b = refl
debt_zero ref_b ref_c = refl
debt_zero ref_c ref_a = refl
debt_zero ref_c ref_b = refl
debt_zero ref_c ref_c = refl

module _ {Q : Type 0} (lib : SpscQueue Event Q) where
  open lib use {contents}

  -- What holds at any time; `past` is whose threads called _runImpl.
  pub record Inv (past : List Ref) (owed : Ref → ℕ) (s : System Q) : Type 0 where
    pub ids : HasIds s
    pub flow :
        (p : Ref)
        → (manager_of p s).counters.tx
          ≡ arrived p s + owed p + length (contents (manager_of p s).tx_queue)
    pub accounted :
        (p : Ref)
        → (manager_of p s).counters.tx + (manager_of p s).counters.dropped
          ≡ count_if (is_ref p) past
    pub received : (p : Ref) → (manager_of p s).counters.rx ≡ length (manager_of p s).consumed
    pub made : (p : Ref) → All (makes p) (contents (manager_of p s).tx_queue)
    pub taken : (p : Ref) → All (accepts p) (manager_of p s).consumed

  -- The same number of events is owed.
  pub same-Inv :
      {past : List Ref} {owed owed' : Ref → ℕ} (s : System Q)
      → ((q : Ref) → owed q ≡ owed' q)
      → Inv past owed s
      → Inv past owed' s
  same-Inv s same v = record {
    ids = v.ids;
    flow = λ q. omega (arith, v.flow q, same q);
    accounted = v.accounted;
    received = v.received;
    made = v.made;
    taken = v.taken;
  }

  -- An event that arrives is no longer owed.
  arrived-consume :
      (p : Ref) (e : Event) (n : ℕ) (s : System Q) (q : Ref)
      → makes p e ≡ true
      → arrived q ((members lib).objects.consume (receiver p e) e s) + debt p n q
        ≡ arrived q s + debt p (suc n) q
  unfolding consume_event
  arrived-consume ref_a (status_event t j) n s ref_a h =
      omega (arith, length-append s.c.consumed (status_event t j ∷ []))
  arrived-consume ref_a (status_event t j) n s ref_b h = refl
  arrived-consume ref_a (status_event t j) n s ref_c h = refl
  arrived-consume ref_a (serial_event d) n s ref_a h =
      omega (arith, length-append s.b.consumed (serial_event d ∷ []))
  arrived-consume ref_a (serial_event d) n s ref_b h = refl
  arrived-consume ref_a (serial_event d) n s ref_c h = refl
  arrived-consume ref_b (serial_event d) n s ref_a h = refl
  arrived-consume ref_b (serial_event d) n s ref_b h =
      omega (arith, count_if_snoc is_serial s.a.base.consumed (serial_event d))
  arrived-consume ref_b (serial_event d) n s ref_c h =
      omega (arith, count_if_snoc is_control s.a.base.consumed (serial_event d))
  arrived-consume ref_c (control_event t j) n s ref_a h = refl
  arrived-consume ref_c (control_event t j) n s ref_b h =
      omega (arith, count_if_snoc is_serial s.a.base.consumed (control_event t j))
  arrived-consume ref_c (control_event t j) n s ref_c h =
      omega (arith, count_if_snoc is_control s.a.base.consumed (control_event t j))
  arrived-consume ref_a (control_event t j) n s q h = absurd (cc h)
  arrived-consume ref_b (control_event t j) n s q h = absurd (cc h)
  arrived-consume ref_b (status_event t j) n s q h = absurd (cc h)
  arrived-consume ref_c (status_event t j) n s q h = absurd (cc h)
  arrived-consume ref_c (serial_event d) n s q h = absurd (cc h)

  pub consume-Inv :
      {past : List Ref} (owed : Ref → ℕ) (p : Ref) (e : Event) (s : System Q)
      → makes p e ≡ true
      → Inv past (λ q. debt p 1 q + owed q) s
      → Inv past owed ((members lib).objects.consume (receiver p e) e s)
  unfolding consume_event
  consume-Inv {past} owed p e s h v =
      let c = receiver p e in
      let m = manager_of c s in
      let m' = consume_event lib e m in
      let s' = with_manager c m' s in
      record {
        ids = with_manager-all (λ q k. k.auto_id.id ≡ id_of q) c m' s (v.ids c) v.ids;
        flow =
            with_manager-all
              (λ q k. k.counters.tx ≡ arrived q s' + owed q + length (contents k.tx_queue)) c m' s
              (omega (arith, v.flow c, arrived-consume p e 0 s c h, debt_zero p c))
              (λ q. omega (arith, v.flow q, arrived-consume p e 0 s q h, debt_zero p q));
        accounted =
            with_manager-all (λ q k. k.counters.tx + k.counters.dropped ≡ count_if (is_ref q) past)
              c m' s (v.accounted c) v.accounted;
        received =
            with_manager-all (λ q k. k.counters.rx ≡ length k.consumed) c m' s
              (omega (arith, v.received c, length-append m.consumed (e ∷ []))) v.received;
        made =
            with_manager-all (λ q k. All (makes q) (contents k.tx_queue)) c m' s (v.made c) v.made;
        taken =
            with_manager-all (λ q k. All (accepts q) k.consumed) c m' s
              (All-snoc (accepts c) m.consumed e (v.taken c) (accepts-receiver p e h)) v.taken;
      }
