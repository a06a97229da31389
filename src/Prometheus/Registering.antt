-- ===== src/Prometheus/Registering.antt =====
-- Run of inc/IManager.h up to the start of its thread, for one manager.
use Prim.Native.String.{String}
use poc_event_manager.Prelude.{ℕ, ◌≡◌, ◌≢◌, refl, ◌∙◌, true, false, none, some}
use poc_event_manager.Prometheus.Interface.{IPrometheus, IsCounting}
use poc_event_manager.Prometheus.Names.{begins_dropped, metric_name-injective}
use poc_event_manager.Prometheus.Metrics.{
  Kind, received, sent, dropped, Metrics, metric_name, help, counter_of, register_all,
}

module _ {H R : Type 0} (prom : IPrometheus H R) (laws : IsCounting prom) where
  open laws use {is_name, named, value, add_lem}

  -- The counters of `r` are untouched in `r'`.
  pub IsKept : R → R → Type 0
  IsKept r r' =
      (k : String) (g : H) → named k r ≡ some g → (named k r' ≡ some g) × (value g r' ≡ value g r)

  pub IsKept-trans : (r s t : R) → IsKept r s → IsKept s t → IsKept r t
  unfolding IsKept
  IsKept-trans r s t a b k g e = let (p, q) = a k g e in let (p', q') = b k g p in (p', q' ∙ q)

  pub IsKept-refl : (r : R) → IsKept r r
  unfolding IsKept
  IsKept-refl r k g e = (e, refl)

  -- A manager's counter is published under its name, with the value `v`.
  pub record Shows (n : String) (m : Metrics H) (k : Kind) (v : ℕ) (r : R) : Type 0 where
    pub handle : H
    pub held : counter_of k m ≡ some handle
    pub published : named (metric_name k n) r ≡ some handle
    pub shown : value handle r ≡ v

  pub kept-Shows :
      (n : String) (m : Metrics H) (k : Kind) (v : ℕ) (r r' : R)
      → IsKept r r'
      → Shows n m k v r
      → Shows n m k v r'
  unfolding IsKept
  kept-Shows n m k v r r' kept s =
      let (p, q) = kept (metric_name k n) s.handle s.published in
      record { handle = s.handle; held = s.held; published = p; shown = q ∙ s.shown }

  pub record Registered (n : String) (m : Metrics H) (r r' : R) : Type 0 where
    pub set : m.prometheus ≡ true
    pub shows : (k : Kind) → Shows n m k 0 r'
    pub kept : IsKept r r'
    pub others : (s : String) → ((k : Kind) → s ≢ metric_name k n) → named s r' ≡ named s r

  pub register_all_lem :
      (n : String) (m : Metrics H) (r : R)
      → m.prometheus ≡ true
      → begins_dropped n ≡ false
      → ((k : Kind) → is_name (metric_name k n) ≡ true)
      → ((k : Kind) → named (metric_name k n) r ≡ none)
      → (m' : Metrics H) × (r' : R) × (register_all prom n m r ≡ some (m', r'))
        × Registered n m' r r'
  unfolding register_all IsKept
  register_all_lem n m r set plain good new =
      let (a, ra, ea, na, za, ka, oa) =
        add_lem (metric_name received n) (help received) r (good received) in
      let (b, rb, eb, nb, zb, kb, ob) = add_lem (metric_name sent n) (help sent) ra (good sent) in
      let (c, rc, ec, nc, zc, kc, oc) =
        add_lem (metric_name dropped n) (help dropped) rb (good dropped) in
      let m' : Metrics H = record m { rx = some a; tx = some b; dropped_tx = some c } in
      let new_b : named (metric_name sent n) ra ≡ none =
        oa (metric_name sent n)
          (λ e. cc ((metric_name-injective sent received n n plain plain e).0))
        ∙ new sent in
      let new_c : named (metric_name dropped n) rb ≡ none =
        ob (metric_name dropped n)
          (λ e. cc ((metric_name-injective dropped sent n n plain plain e).0))
        ∙ oa (metric_name dropped n)
            (λ e. cc ((metric_name-injective dropped received n n plain plain e).0))
        ∙ new dropped in
      let a_shows : Shows n m' received 0 ra = record {
        handle = a;
        held = refl;
        published = na;
        shown = za (new received);
      } in
      let b_shows : Shows n m' sent 0 rb = record {
        handle = b;
        held = refl;
        published = nb;
        shown = zb new_b;
      } in
      let c_shows : Shows n m' dropped 0 rc = record {
        handle = c;
        held = refl;
        published = nc;
        shown = zc new_c;
      } in
      (
        m',
        rc,
        rw (set, ea, eb, ec) refl,
        record {
          set = set;
          shows = λ k. elim k as (λ l. Shows n m' l 0 rc) [
            | received ↦ kept-Shows n m' received 0 ra rc (IsKept-trans ra rb rc kb kc) a_shows
            | sent ↦ kept-Shows n m' sent 0 rb rc kc b_shows
            | dropped ↦ c_shows
          ];
          kept = IsKept-trans r ra rc ka (IsKept-trans ra rb rc kb kc);
          others = λ s ne. oc s (ne dropped) ∙ ob s (ne sent) ∙ oa s (ne received);
        },
      )
