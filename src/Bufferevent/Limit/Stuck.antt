-- ===== src/Bufferevent/Limit/Stuck.antt =====
-- A bufferevent that has used up its tokens is suspended, and one that is suspended waits for a
-- refill.
use test_codes.Prelude.{
  ℕ, ◌^◌, ◌<◌, ◌≡◌, inl, inr, refl, sym, ap, ◌∙◌, Bool, true, false, Option, none, some, ◌==◌,
  Option-cases, if_intro, Then, Then-bind, arith,
}
use mathlib.Core.Path.{subst}
use test_codes.Prelude.Int.{ℤ, pos}
use test_codes.Ratelim.{
  ev_token_bucket_init, ev_token_bucket_get_tick, ev_token_bucket_decrement_read,
  ev_token_bucket_decrement_write,
}
use test_codes.Ratelim.Refill.{IsBucket}
use test_codes.Ratelim.Bounds.{
  Allowed, ev_token_bucket-InBounds, ev_token_bucket_get_tick_word, fresh-IsBucket,
}
use test_codes.Bufferevent.{Suspended, mark, unsuspend, Limiting, Bufferevent}
use test_codes.Bufferevent.Limit.{
  Host, with_cfg, limiting_of, limit_of, on_limit, with_limit, update_limit,
  bufferevent_update_buckets, bufferevent_decrement_read_limit, bufferevent_decrement_write_limit,
  bev_refill_callback, has_cfg, new_limit, empty_limit, clear_rate_limit, place_limit, same_cfg,
  bufferevent_set_rate_limit, bufferevent_get_read_limit, bufferevent_get_write_limit,
}
use test_codes.Bufferevent.Limit.Free.{
  GoodHost, Limited, LimitedWith, LimitedBy, IsFree, newer-Limited, update-Grew,
  settle_read-Limited, settle_write-Limited, resume_refilled-IsFree, start_limit-IsFree,
}

-- The limit that limit_of finds.
record Found (h : Host) (b : Bufferevent) (l : Limiting) (p : ℕ) : Type 0 where
  there : b.rate_limiting ≡ some l
  configured : l.cfg ≡ some p
  limited : Limited h b.reads.suspended b.writes.suspended l p

with_cfg_lem :
    (l m : Limiting) (q : Option ℕ) (p : ℕ) → with_cfg l q ≡ some (m, p) → (l ≡ m) × (q ≡ some p)
with_cfg_lem l m none p e = cc
with_cfg_lem l m (some r) p e = let same : l ≡ m = cc in let at : r ≡ p = cc in (same, ap some at)

limiting_of_lem :
    (o : Option Limiting) (l : Limiting) (p : ℕ)
    → limiting_of o ≡ some (l, p)
    → (o ≡ some l) × (l.cfg ≡ some p)
limiting_of_lem none l p e = cc
limiting_of_lem (some m) l p e =
    let (same, at) = with_cfg_lem m l m.cfg p e in (ap some same, ap Limiting.cfg (sym same) ∙ at)

limit_of-Found :
    (h : Host) (b : Bufferevent) (l : Limiting) (p : ℕ)
    → limit_of b ≡ some (l, p)
    → IsFree h b
    → Found h b l p
unfolding limit_of IsFree
limit_of-Found h b l p found s =
    let (e, f) = limiting_of_lem b.rate_limiting l p found in
    record {
      there = e;
      configured = f;
      limited =
          subst (λ c. LimitedWith h b.reads.suspended b.writes.suspended l c) f
            (subst (λ t. LimitedBy h b.reads.suspended b.writes.suspended t) e s);
    }

-- The result of bufferevent_decrement_read_limit and bufferevent_decrement_write_limit, which assert
-- that there is a limit.
abbrev pub FreeOrUnlimited : Host → Bufferevent → Option (Bool × Bufferevent) → Type 0
FreeOrUnlimited h b none = limit_of b ≡ none
FreeOrUnlimited h b (some r) = IsFree h r.1

updated_limit :
    (h : Host) (r w : Suspended) (good : GoodHost h) (l : Limiting) (p : ℕ)
    → l.cfg ≡ some p
    → Limited h r w (record l { refill = true }) p
    → Then
        (λ l'. (l'.cfg ≡ some p) × Limited h r w (record l' { refill = true }) p)
        (update_limit h l p)
unfolding update_limit
updated_limit h r w good l p f k =
    Then-bind _ _ (ev_token_bucket_get_tick h.now (h.cfgs p)) _
      (ev_token_bucket_get_tick_word h.now (h.cfgs p) (good.ticks p))
      (λ t small. (
        f,
        newer-Limited h r w (record l { refill = true }) p _ k
            (update-Grew (h.cfgs p) l.limit t (good.cfgs p) k.bucket small),
      ))

-- The event loop takes a timeout that has come off its queues before it runs the callback.
unfoldable pub fired_limit : Option Limiting → Option Limiting
fired_limit none = none
fired_limit (some l) = some (record l { refill = false })

unfoldable pub fired : Bufferevent → Bufferevent
unfolding fired_limit
fired b = record b { rate_limiting = fired_limit b.rate_limiting }

fired-Limited :
    (h : Host) (r w : Suspended) (o : Option Limiting) (l : Limiting) (p : ℕ)
    → LimitedBy h r w o
    → limiting_of (fired_limit o) ≡ some (l, p)
    → (l.cfg ≡ some p) × Limited h r w (record l { refill = true }) p
unfolding fired_limit
fired-Limited h r w none l p s e = cc
fired-Limited h r w (some m) l p s e =
    let (same, at) = with_cfg_lem (record m { refill = false }) l m.cfg p e in
    let k : Limited h r w m p = subst (λ c. LimitedWith h r w m c) at s in
    let k' : Limited h r w (record m { refill = true }) p = record {
      bucket = k.bucket;
      reads = k.reads;
      writes = k.writes;
      read_refill = ground arith;
      write_refill = ground arith;
    } in
    (
      ap Limiting.cfg (sym same) ∙ at,
      subst (λ (x : Limiting). Limited h r w (record x { refill = true }) p) same k',
    )

-- A buffer without a limit.
fired_limit-none :
    (h : Host) (r w : Suspended) (o : Option Limiting)
    → LimitedBy h r w o
    → limiting_of (fired_limit o) ≡ none
    → LimitedBy h r w (fired_limit o)
unfolding fired_limit
fired_limit-none h r w none s e = s
fired_limit-none h r w (some l) s e = no_cfg l.cfg refl s e
  where
    no_cfg :
        (q : Option ℕ)
        → l.cfg ≡ q
        → LimitedWith h r w l q
        → with_cfg (record l { refill = false }) q ≡ none
        → LimitedWith h r w (record l { refill = false }) q
    no_cfg none f s e = s
    no_cfg (some p) f s e = cc

fired-IsFree :
    (h : Host) (b : Bufferevent) → IsFree h b → limit_of (fired b) ≡ none → IsFree h (fired b)
unfolding IsFree limit_of fired
fired-IsFree h b s e = fired_limit-none h b.reads.suspended b.writes.suspended b.rate_limiting s e

module _ (h : Host) (b : Bufferevent) (good : GoodHost h) (s : IsFree h b) where
  decrement_read-Free :
      (n : ℤ)
      → ((l : Limiting) (p : ℕ)
          → b.rate_limiting ≡ some l
          → l.cfg ≡ some p
          → Allowed (h.cfgs p).read_maximum l.limit.read_limit n)
      → FreeOrUnlimited h b (bufferevent_decrement_read_limit h b n)
  unfolding bufferevent_decrement_read_limit ev_token_bucket_decrement_read on_limit
  decrement_read-Free n held = elim (Option-cases (limit_of b)) [
    | inl e ↦ rw e e
    | inr ((l, p), e) ↦
        let f = limit_of-Found h b l p e s in
        let c = good.cfgs p in
        let spent =
          (ev_token_bucket-InBounds (h.cfgs p) (h.cfgs p) l.limit 0 n (pos 0) c c f.limited.bucket
            (omega arith) (held l p f.there f.configured)
            (
              omega (arith, f.limited.bucket.writes.1, c.writes.2),
              omega (arith, f.limited.bucket.writes.1, c.writes.2),
            )).read in
        rw e (
          settle_read-Limited h b (record l { limit = ev_token_bucket_decrement_read l.limit n }) p
            _ good spent f.limited.reads f.limited.writes f.limited.read_refill
            f.limited.write_refill f.configured)
  ]

  decrement_write-Free :
      (n : ℤ)
      → ((l : Limiting) (p : ℕ)
          → b.rate_limiting ≡ some l
          → l.cfg ≡ some p
          → Allowed (h.cfgs p).write_maximum l.limit.write_limit n)
      → FreeOrUnlimited h b (bufferevent_decrement_write_limit h b n)
  unfolding bufferevent_decrement_write_limit ev_token_bucket_decrement_write on_limit
  decrement_write-Free n held = elim (Option-cases (limit_of b)) [
    | inl e ↦ rw e e
    | inr ((l, p), e) ↦
        let f = limit_of-Found h b l p e s in
        let c = good.cfgs p in
        let spent =
          (ev_token_bucket-InBounds (h.cfgs p) (h.cfgs p) l.limit 0 (pos 0) n c c f.limited.bucket
            (omega arith)
            (
              omega (arith, f.limited.bucket.reads.1, c.reads.2),
              omega (arith, f.limited.bucket.reads.1, c.reads.2),
            )
            (held l p f.there f.configured)).wrote in
        rw e (
          settle_write-Limited h b (record l { limit = ev_token_bucket_decrement_write l.limit n })
            p _ good spent f.limited.writes f.limited.reads f.limited.read_refill
            f.limited.write_refill f.configured)
  ]

  updated_buckets :
      (l : Limiting) (p : ℕ)
      → Found h b l p
      → Then
          (λ l'. (l'.cfg ≡ some p) × Limited h b.reads.suspended b.writes.suspended l' p)
          (bufferevent_update_buckets h l p)
  unfolding bufferevent_update_buckets
  updated_buckets l p f =
      let P = λ (l' : Limiting).
        (l'.cfg ≡ some p) × Limited h b.reads.suspended b.writes.suspended l' p in
      Then-bind _ _ (ev_token_bucket_get_tick h.now (h.cfgs p)) _
        (ev_token_bucket_get_tick_word h.now (h.cfgs p) (good.ticks p))
        (λ t small.
          if_intro P (t == l.limit.last_updated) (λ same. (f.configured, f.limited))
            (λ later. (
              f.configured,
              newer-Limited h _ _ l p _ f.limited
                  (update-Grew (h.cfgs p) l.limit t (good.cfgs p) f.limited.bucket small),
            )))

  with_limit-Free :
      (l : Limiting) (p : ℕ)
      → l.cfg ≡ some p
      → Limited h b.reads.suspended b.writes.suspended l p
      → IsFree h (with_limit b l)
  unfolding IsFree
  with_limit-Free l p e f =
      subst (λ c. LimitedWith h b.reads.suspended b.writes.suspended l c) (sym e) f

  get_read_limit-Free : Then (λ r. IsFree h r.1) (bufferevent_get_read_limit h b)
  unfolding bufferevent_get_read_limit on_limit
  get_read_limit-Free = elim (Option-cases (limit_of b)) [
    | inl e ↦ rw e s
    | inr ((l, p), e) ↦ rw e (
        Then-bind _ _ (bufferevent_update_buckets h l p) _
          (updated_buckets l p (limit_of-Found h b l p e s)) (λ l' k. with_limit-Free l' p k.0 k.1))
  ]

  get_write_limit-Free : Then (λ r. IsFree h r.1) (bufferevent_get_write_limit h b)
  unfolding bufferevent_get_write_limit on_limit
  get_write_limit-Free = elim (Option-cases (limit_of b)) [
    | inl e ↦ rw e s
    | inr ((l, p), e) ↦ rw e (
        Then-bind _ _ (bufferevent_update_buckets h l p) _
          (updated_buckets l p (limit_of-Found h b l p e s)) (λ l' k. with_limit-Free l' p k.0 k.1))
  ]

  refill_callback-Free : Then (IsFree h) (bev_refill_callback h (fired b))
  unfolding bev_refill_callback on_limit fired IsFree limit_of
  refill_callback-Free = elim (Option-cases (limit_of (fired b))) [
    | inl e ↦ rw e (fired-IsFree h b s e)
    | inr ((l, p), e) ↦
        let (f, k) = fired-Limited h b.reads.suspended b.writes.suspended b.rate_limiting l p s e in
        rw e (
          Then-bind _ _ (update_limit h l p) _ (updated_limit h _ _ good l p f k) (λ l' u.
            resume_refilled-IsFree h (fired b) l' p good u.1.bucket u.1.reads u.1.writes u.0))
  ]

  clear_rate_limit-Free :
      (o : Option Limiting) → b.rate_limiting ≡ o → IsFree h (clear_rate_limit b o)
  unfolding clear_rate_limit IsFree unsuspend mark
  clear_rate_limit-Free none e = s
  clear_rate_limit-Free (some l) e = (refl, refl)

  -- The bucket of the new configuration.
  new_limit-IsBucket :
      (l : Limiting) (p t : ℕ) (q : Option ℕ)
      → b.rate_limiting ≡ some l
      → l.cfg ≡ q
      → t < 2 ^ 32
      → IsBucket (h.cfgs p) (ev_token_bucket_init l.limit (h.cfgs p) t (has_cfg q))
  unfolding IsFree
  new_limit-IsBucket l p t none e f small = fresh-IsBucket (h.cfgs p) l.limit t (good.cfgs p) small
  new_limit-IsBucket l p t (some q) e f small =
      let limited : Limited h b.reads.suspended b.writes.suspended l q =
        subst (λ c. LimitedWith h b.reads.suspended b.writes.suspended l c) f
          (subst (λ o. LimitedBy h b.reads.suspended b.writes.suspended o) e s) in
      (ev_token_bucket-InBounds (h.cfgs p) (h.cfgs q) l.limit t (pos 0) (pos 0) (good.cfgs p)
        (good.cfgs q) limited.bucket small
        (
          omega (arith, limited.bucket.reads.1, (good.cfgs q).reads.2),
          omega (arith, limited.bucket.reads.1, (good.cfgs q).reads.2),
        )
        (
          omega (arith, limited.bucket.writes.1, (good.cfgs q).writes.2),
          omega (arith, limited.bucket.writes.1, (good.cfgs q).writes.2),
        )).reinit

  place_limit-Free :
      (memory : Bool) (p t : ℕ) (o : Option Limiting)
      → b.rate_limiting ≡ o
      → t < 2 ^ 32
      → IsFree h (place_limit h memory b p t o).1
  unfolding place_limit
  place_limit-Free memory p t none e small =
      if_intro (λ (r : Bool × Bufferevent). IsFree h r.1) memory
        (λ there.
          start_limit-IsFree h b (new_limit h empty_limit p t) p good
            (fresh-IsBucket (h.cfgs p) _ t (good.cfgs p) small) refl)
        (λ gone. s)
  place_limit-Free memory p t (some l) e small =
      if_intro (IsFree h) (same_cfg l.cfg p) (λ same. s)
        (λ other.
          start_limit-IsFree h b (new_limit h l p t) p good
            (new_limit-IsBucket l p t l.cfg e refl small) refl)

  set_rate_limit-Free :
      (memory : Bool) (q : Option ℕ)
      → Then (λ r. IsFree h r.1) (bufferevent_set_rate_limit h memory b q)
  unfolding bufferevent_set_rate_limit
  set_rate_limit-Free memory none = clear_rate_limit-Free b.rate_limiting refl
  set_rate_limit-Free memory (some p) =
      Then-bind _ _ (ev_token_bucket_get_tick h.now (h.cfgs p)) _
        (ev_token_bucket_get_tick_word h.now (h.cfgs p) (good.ticks p))
        (λ t small. place_limit-Free memory p t b.rate_limiting refl small)

-- The bufferevent after each call.
pub record NeverStuck (h : Host) (b : Bufferevent) (memory : Bool) (q : Option ℕ) (n m : ℤ)
    : Type 0 where
  pub set_rate_limit : Then (λ r. IsFree h r.1) (bufferevent_set_rate_limit h memory b q)
  pub read : FreeOrUnlimited h b (bufferevent_decrement_read_limit h b n)
  pub write : FreeOrUnlimited h b (bufferevent_decrement_write_limit h b m)
  pub refill_callback : Then (IsFree h) (bev_refill_callback h (fired b))
  pub get_read_limit : Then (λ r. IsFree h r.1) (bufferevent_get_read_limit h b)
  pub get_write_limit : Then (λ r. IsFree h r.1) (bufferevent_get_write_limit h b)

-- Take a bufferevent in which a side without tokens is suspended, and a side that is suspended for lack
-- of tokens has the refill event pending. It is so again after bufferevent_set_rate_limit, after
-- bufferevent_decrement_read_limit and bufferevent_decrement_write_limit of signed numbers of bytes, negative ones
-- among them, that do not overflow the limit or lift it above its maximum, after the callback of the refill event, which has come off its queues, and after the two
-- calls that get a limit, also where memory runs out. The calls end, and the decrements fail their
-- assertion only if there is no limit. The configurations have ticks of a millisecond at least, and
-- event_add succeeds.
pub bufferevent-NeverStuck :
    (h : Host) (b : Bufferevent) (memory : Bool) (q : Option ℕ) (n m : ℤ)
    → GoodHost h
    → IsFree h b
    → ((l : Limiting) (p : ℕ)
        → b.rate_limiting ≡ some l
        → l.cfg ≡ some p
        → Allowed (h.cfgs p).read_maximum l.limit.read_limit n)
    → ((l : Limiting) (p : ℕ)
        → b.rate_limiting ≡ some l
        → l.cfg ≡ some p
        → Allowed (h.cfgs p).write_maximum l.limit.write_limit m)
    → NeverStuck h b memory q n m
bufferevent-NeverStuck h b memory q n m good s reads writes = record {
  set_rate_limit = set_rate_limit-Free h b good s memory q;
  read = decrement_read-Free h b good s n reads;
  write = decrement_write-Free h b good s m writes;
  refill_callback = refill_callback-Free h b good s;
  get_read_limit = get_read_limit-Free h b good s;
  get_write_limit = get_write_limit-Free h b good s;
}
