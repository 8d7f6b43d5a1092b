-- ===== src/EventBase/Loop/Queue.antt =====
-- event_process_active_single_queue runs the events of its queue in order.
use test_codes.Prelude.{
  ℕ, zero, suc, ◌+◌, ◌<◌, ◌≡◌, inl, inr, refl, sym, ap, ◌∙◌, Bool, true, false, ◌&&◌, List, [], ◌∷◌,
  ◌++◌, append_assoc, append-nil, Option, none, some, ◌==◌, if◌then◌else◌, length, Bool-cases,
  arith, Then, Then-bind, Then-map,
}
use mathlib.Core.Path.{subst}
use test_codes.Event.{What}
use test_codes.Evmap.{remove, bit}
use test_codes.Evmap.Io.{count}
use test_codes.EventBase.{
  Closure, no_closure, signal_closure, persist_closure, Event, EventBase, World, visible,
}
use test_codes.EventBase.Queues.{InStep, count_of}
use test_codes.EventBase.Loop.{
  Looping, User, call_back, event_persist_closure, run_closure, take_off, after_callback,
  process_first, process_queue,
}
use test_codes.EventBase.Loop.Taken.{Taken, take_off-Taken}
use test_codes.EventBase.Loop.Quiet.{
  IsSimple, IsPlain, ActivePlain, IsQuiet, in_order, count_visible, same_queue,
}

-- A queue of events from the call with `l` on, which has led to `l'`.
pub record Ran (pri : ℕ) (xs : List ℕ) (l l' : Looping) : Type 0 where
  pub in_step : InStep l'.base
  pub plain : ActivePlain l'.base
  pub emptied : l'.base.activequeues pri ≡ []
  pub others : (q : ℕ) → pri == q ≡ false → l'.base.activequeues q ≡ l.base.activequeues q
  pub calls : l'.calls ≡ l.calls ++ in_order l.base.events xs

abbrev pub Counted : ℕ → List ℕ → ℕ → Looping → Option ℕ × Looping → Type 0
Counted pri xs n l r = (r.0 ≡ some (n + count_visible l.base.events xs)) × Ran pri xs l r.1

-- What holds of a base at the start of a queue.
pub record Before (b : EventBase) : Type 0 where
  pub in_step : InStep b
  pub plain : ActivePlain b
  pub no_break : b.event_break ≡ false
  pub no_continue : b.event_continue ≡ false

-- The first event of a queue.
record IsFirst (pri e : ℕ) (rest : List ℕ) (b : EventBase) : Type 0 where
  active : (b.events e).on_active ≡ true
  pri_same : (b.events e).ev_pri ≡ pri
  once : count_of e rest ≡ 0

first_lem :
    (pri e : ℕ) (rest : List ℕ) (b : EventBase)
    → InStep b
    → b.activequeues pri ≡ e ∷ rest
    → IsFirst pri e rest b
unfolding count
first_lem pri e rest b s h =
    let hit : e == e ≡ true = ground arith in
    let all = sym (ap (count_of e) h) ∙ s.activated e pri in
    let all' : 1 + count_of e rest ≡ bit ((b.events e).on_active && (b.events e).ev_pri == pri) =
      rw hit at all in
    record {
      active = ground (arith, all');
      pri_same = ground (arith, all');
      once = ground (arith, all');
    }

Taken-queue :
    (pri e : ℕ) (rest : List ℕ) (b c : EventBase)
    → b.activequeues pri ≡ e ∷ rest
    → (b.events e).ev_pri ≡ pri
    → Taken e b c
    → (c.activequeues pri ≡ rest)
      × ((q : ℕ) → pri == q ≡ false → c.activequeues q ≡ b.activequeues q)
unfolding remove
Taken-queue pri e rest b c h p t =
    let hit : e == e ≡ true = ground arith in
    let mine : pri == pri ≡ true = ground arith in
    (
      ap (λ (f : ℕ → List ℕ). f pri) t.left.0 ∙ rw (p, mine, h, hit) refl,
      λ q other. ap (λ (f : ℕ → List ℕ). f q) t.left.0 ∙ rw (p, other) refl,
    )

Taken-Before : (e : ℕ) (b c : EventBase) → Before b → Taken e b c → Before c
Taken-Before e b c h t = record {
  in_step = t.in_step;
  plain = λ j on. elim (Bool-cases (e == j)) [
    | inl same ↦
        let q : e ≡ j = ground arith in
        let off : (c.events j).on_active ≡ false =
          subst (λ k. (c.events k).on_active ≡ false) q t.gone in
        absurd (ground arith)
    | inr other ↦
        let was : c.events j ≡ b.events j = t.others j other in
        subst IsPlain (sym was) (h.plain j (sym (ap (λ (v : Event). v.on_active) was) ∙ on))
  ];
  no_break = t.left.1 ∙ h.no_break;
  no_continue = t.left.2 ∙ h.no_continue;
}

-- The loop after a callback.
record Called (e : ℕ) (res : What) (l l' : Looping) : Type 0 where
  base : l'.base ≡ l.base
  calls : l'.calls ≡ l.calls ++ (e, res) ∷ []

after_callback-goes :
    (next : ℕ → Looping → Option (Option ℕ × Looping)) (n : ℕ) (l : Looping)
    → l.base.event_break ≡ false
    → l.base.event_continue ≡ false
    → after_callback next n l ≡ next n l
after_callback-goes next n l stop again =
    ap
      (λ (t : Bool).
        if t then some (none, l) else if l.base.event_continue then some (some n, l) else next n l)
      stop
    ∙ ap (λ (t : Bool). if t then some (some n, l) else next n l) again

module _ (u : User) (quiet : IsQuiet u) where
  call_back-Called : (e : ℕ) (l : Looping) → Called e (l.base.events e).ev_res l (call_back u e l)
  unfolding call_back
  call_back-Called e l = record { base = quiet.base e _ _; calls = quiet.calls e _ _ }

  run_closure-Called :
      (w : World) (e : ℕ) (l : Looping) (c : Closure)
      → IsSimple c (l.base.events e).ev_io_timeout
      → Then (Called e (l.base.events e).ev_res l) (run_closure u w e l c)
  unfolding run_closure event_persist_closure
  run_closure-Called w e l no_closure h = call_back-Called e l
  run_closure-Called w e l persist_closure h = rw h (call_back-Called e l)
  run_closure-Called w e l signal_closure h = absurd h

  -- One event of a queue, and then the rest of it.
  process_first-Ran :
      (next : ℕ → Looping → Option (Option ℕ × Looping)) (w : World) (pri n e : ℕ) (rest : List ℕ)
      (l : Looping)
      → Before l.base
      → l.base.activequeues pri ≡ e ∷ rest
      → ((m : ℕ) (l' : Looping)
          → Before l'.base
          → l'.base.activequeues pri ≡ rest
          → Then (Counted pri rest m l') (next m l'))
      → Then (Counted pri (e ∷ rest) n l) (process_first next u w n l (e ∷ rest))
  unfolding process_first in_order count_visible
  process_first-Ran next w pri n e rest l h q more =
      let b = l.base in
      let f = first_lem pri e rest b h.in_step q in
      let plain = h.plain e f.active in
      Then-bind _ _ (take_off w b e) _ (take_off-Taken w e b h.in_step f.active plain.off_maps)
        (λ c t.
          let taken : Looping = record l { base = c } in
          let now = Taken-Before e b c h t in
          let (mine, others) = Taken-queue pri e rest b c q f.pri_same t in
          let (res, closure, interval, intern) = t.event in
          let simple : IsSimple (c.events e).ev_closure (c.events e).ev_io_timeout =
            rw (closure, interval) plain.simple in
          Then-bind _ _ (run_closure u w e taken (c.events e).ev_closure) _
            (run_closure-Called w e taken (c.events e).ev_closure simple)
            (λ l' k.
              let stop : l'.base.event_break ≡ false =
                ap EventBase.event_break k.base ∙ now.no_break in
              let again : l'.base.event_continue ≡ false =
                ap EventBase.event_continue k.base ∙ now.no_continue in
              let (order, many) = same_queue b c e rest f.once t.others in
              let shown : visible (c.events e) ≡ visible (b.events e) =
                ap (λ (t : Bool). if t then 0 else 1) intern in
              let left : count_visible l'.base.events rest ≡ count_visible b.events rest =
                ap (λ (d : EventBase). count_visible d.events rest) k.base ∙ many in
              subst (Then _)
                (sym (after_callback-goes next (n + visible (c.events e)) l' stop again))
                (Then-map _ _ (next (n + visible (c.events e)) l')
                  (more (n + visible (c.events e)) l' (subst Before (sym k.base) now)
                    (ap (λ (d : EventBase). d.activequeues pri) k.base ∙ mine))
                  (λ r (counted, ran). (
                    counted ∙ ap some (omega (arith, shown, left)),
                    record {
                      in_step = ran.in_step;
                      plain = ran.plain;
                      emptied = ran.emptied;
                      others = λ j other.
                          ran.others j other
                          ∙ ap (λ (d : EventBase). d.activequeues j) k.base
                          ∙ others j other;
                      calls =
                          ran.calls
                          ∙ ap (λ (xs : List (ℕ × What)). xs ++ in_order l'.base.events rest)
                              k.calls
                          ∙ append_assoc l.calls ((e, (c.events e).ev_res) ∷ [])
                              (in_order l'.base.events rest)
                          ∙ ap (λ (v : What). l.calls ++ (e, v) ∷ in_order l'.base.events rest) res
                          ∙ ap (λ (xs : List (ℕ × What)). l.calls ++ (e, (b.events e).ev_res) ∷ xs)
                              (ap (λ (d : EventBase). in_order d.events rest) k.base ∙ order);
                    },
                  )))))

  pub process_queue-Ran :
      (xs : List ℕ) (fuel : ℕ) (w : World) (pri n : ℕ) (l : Looping)
      → Before l.base
      → l.base.activequeues pri ≡ xs
      → length xs < fuel
      → Then (Counted pri xs n l) (process_queue fuel u w pri n l)
  unfolding process_queue process_first in_order count_visible
  process_queue-Ran xs zero w pri n l h q k = absurd (omega arith)
  process_queue-Ran [] (suc fuel) w pri n l h q k =
      subst
        (λ (queue : List ℕ).
          Then (Counted pri [] n l) (process_first (process_queue fuel u w pri) u w n l queue))
        (sym q)
        (
          ap some (omega arith),
          record {
            in_step = h.in_step;
            plain = h.plain;
            emptied = q;
            others = λ j other. refl;
            calls = sym (append-nil l.calls);
          },
        )
  process_queue-Ran (e ∷ xs) (suc fuel) w pri n l h q k =
      subst
        (λ (queue : List ℕ).
          Then (Counted pri (e ∷ xs) n l)
            (process_first (process_queue fuel u w pri) u w n l queue))
        (sym q)
        (process_first-Ran (process_queue fuel u w pri) w pri n e xs l h q
          (λ m l' h' q'. process_queue-Ran xs fuel w pri m l' h' q' (omega arith)))
