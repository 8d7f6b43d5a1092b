-- ===== src/Bufferevent/Limit/Free.antt =====
-- When a limit is in step with the sides of its bufferevent, and the steps that keep it so.
use test_codes.Prelude.{
  ℕ, ◌^◌, ◌<◌, ◌≡◌, inl, inr, refl, Bool, true, false, not, ◌&&◌, ◌||◌, Option, none, some,
  if◌then◌else◌, Bool-cases, if_intro, arith,
}
use test_codes.Prelude.Int.{pos}
use test_codes.Ratelim.{Cfg, Bucket, ev_token_bucket_update}
use test_codes.Ratelim.Refill.{IsCfg, IsBucket, Updated, ev_token_bucket_update-Updated}
use test_codes.Ratelim.Bounds.{ev_token_bucket-InBounds}
use test_codes.Bufferevent.{
  bw, Suspended, mark, suspend, unsuspend, Side, Limiting, Bufferevent, bufferevent_suspend_read,
  bufferevent_unsuspend_read, bufferevent_suspend_write, bufferevent_unsuspend_write,
}
use test_codes.Bufferevent.Limit.{
  positive, Host, add_refill, settle_read, settle_write, resume_refilled, start_limit,
}

-- Configurations with a tick of a millisecond at least, and a refill event that can be added.
pub record GoodHost (h : Host) : Type 0 where
  pub cfgs : (p : ℕ) → IsCfg (h.cfgs p)
  pub ticks : (p : ℕ) → 0 < (h.cfgs p).msec_per_tick
  pub adds : h.adds ≡ true

-- With the configuration at `p`: a side without tokens is suspended, and a side that is suspended for
-- lack of tokens has the refill event pending.
pub record Limited (h : Host) (r w : Suspended) (l : Limiting) (p : ℕ) : Type 0 where
  pub bucket : IsBucket (h.cfgs p) l.limit
  pub reads : positive l.limit.read_limit || r.by_bw ≡ true
  pub writes : positive l.limit.write_limit || w.by_bw ≡ true
  pub read_refill : not r.by_bw || l.refill ≡ true
  pub write_refill : not w.by_bw || l.refill ≡ true

abbrev pub LimitedWith : Host → Suspended → Suspended → Limiting → Option ℕ → Type 0
LimitedWith h r w l none = (r.by_bw ≡ false) × (w.by_bw ≡ false)
LimitedWith h r w l (some p) = Limited h r w l p

abbrev pub LimitedBy : Host → Suspended → Suspended → Option Limiting → Type 0
LimitedBy h r w none = (r.by_bw ≡ false) × (w.by_bw ≡ false)
LimitedBy h r w (some l) = LimitedWith h r w l l.cfg

-- Neither side is stuck.
unfoldable pub IsFree : Host → Bufferevent → Type 0
IsFree h b = LimitedBy h b.reads.suspended b.writes.suspended b.rate_limiting

-- An update takes no tokens.
pub record Grew (cfg : Cfg) (b c : Bucket) : Type 0 where
  pub bucket : IsBucket cfg c
  pub reads : positive b.read_limit ≡ true → positive c.read_limit ≡ true
  pub writes : positive b.write_limit ≡ true → positive c.write_limit ≡ true

Updated-Grew :
    (cfg : Cfg) (b : Bucket) (t : ℕ) (r : Bool × Bucket)
    → IsBucket cfg b
    → IsBucket cfg r.1
    → Updated cfg b t r
    → Grew cfg b r.1
Updated-Grew cfg b t (false, c) s s' (same, why) = record {
  bucket = s';
  reads = λ k. rw same k;
  writes = λ k. rw same k;
}
Updated-Grew cfg b t (true, c) s s' (some_ticks, few, reads, writes, tick) = record {
  bucket = s';
  reads = λ k. ground (arith, reads, s.reads.1);
  writes = λ k. ground (arith, writes, s.writes.1);
}

pub update-Grew :
    (cfg : Cfg) (b : Bucket) (t : ℕ)
    → IsCfg cfg
    → IsBucket cfg b
    → t < 2 ^ 32
    → Grew cfg b (ev_token_bucket_update b cfg t).1
update-Grew cfg b t c s small =
    Updated-Grew cfg b t (ev_token_bucket_update b cfg t) s
      (ev_token_bucket-InBounds cfg cfg b t (pos 0) (pos 0) c c s small
        (omega (arith, s.reads.1, c.reads.2), omega (arith, s.reads.1, c.reads.2))
        (omega (arith, s.writes.1, c.writes.2), omega (arith, s.writes.1, c.writes.2))).update
      (ev_token_bucket_update-Updated cfg b t c s small)

-- A limit with a newer bucket.
pub newer-Limited :
    (h : Host) (r w : Suspended) (l : Limiting) (p : ℕ) (c : Bucket)
    → Limited h r w l p
    → Grew (h.cfgs p) l.limit c
    → Limited h r w (record l { limit = c }) p
newer-Limited h r w l p c s g = record {
  bucket = g.bucket;
  reads = elim (Bool-cases (positive l.limit.read_limit)) [
    | inl k ↦ rw (g.reads k) refl
    | inr k ↦ let held : r.by_bw ≡ true = rw k at s.reads in rw held (ground arith)
  ];
  writes = elim (Bool-cases (positive l.limit.write_limit)) [
    | inl k ↦ rw (g.writes k) refl
    | inr k ↦ let held : w.by_bw ≡ true = rw k at s.writes in rw held (ground arith)
  ];
  read_refill = s.read_refill;
  write_refill = s.write_refill;
}

-- The limit of one side has become `l`, with a smaller bucket.
pub settle_read-Limited :
    (h : Host) (b : Bufferevent) (l : Limiting) (p : ℕ) (old : Bool)
    → GoodHost h
    → IsBucket (h.cfgs p) l.limit
    → old || b.reads.suspended.by_bw ≡ true
    → positive l.limit.write_limit || b.writes.suspended.by_bw ≡ true
    → not b.reads.suspended.by_bw || l.refill ≡ true
    → not b.writes.suspended.by_bw || l.refill ≡ true
    → l.cfg ≡ some p
    → IsFree h (settle_read h b l old).1
unfolding settle_read IsFree bufferevent_suspend_read bufferevent_unsuspend_read suspend unsuspend
    mark
settle_read-Limited h b l p old good s reads writes read_refill write_refill e =
    let P = λ (r : Bool × Bufferevent). IsFree h r.1 in
    let adds = good.adds in
    if_intro P (old && not (positive l.limit.read_limit))
      (λ used_up. rw e (record {
        bucket = s;
        reads = ground arith;
        writes = writes;
        read_refill = ground (arith, adds);
        write_refill = ground (arith, adds);
      }))
      (λ not_used.
        if_intro P (not old && positive l.limit.read_limit)
          (λ back.
            if_intro
              (λ (l' : Limiting).
                LimitedWith h (mark bw false b.reads.suspended) b.writes.suspended l' l'.cfg)
              (not b.writes.suspended.by_bw)
              (λ free. rw e (record {
                bucket = s;
                reads = ground arith;
                writes = writes;
                read_refill = refl;
                write_refill = ground arith;
              }))
              (λ held. rw e (record {
                bucket = s;
                reads = ground arith;
                writes = writes;
                read_refill = refl;
                write_refill = write_refill;
              })))
          (λ same. rw e (record {
            bucket = s;
            reads = ground arith;
            writes = writes;
            read_refill = read_refill;
            write_refill = write_refill;
          })))

pub settle_write-Limited :
    (h : Host) (b : Bufferevent) (l : Limiting) (p : ℕ) (old : Bool)
    → GoodHost h
    → IsBucket (h.cfgs p) l.limit
    → old || b.writes.suspended.by_bw ≡ true
    → positive l.limit.read_limit || b.reads.suspended.by_bw ≡ true
    → not b.reads.suspended.by_bw || l.refill ≡ true
    → not b.writes.suspended.by_bw || l.refill ≡ true
    → l.cfg ≡ some p
    → IsFree h (settle_write h b l old).1
unfolding settle_write IsFree bufferevent_suspend_write bufferevent_unsuspend_write suspend
    unsuspend mark
settle_write-Limited h b l p old good s writes reads read_refill write_refill e =
    let P = λ (r : Bool × Bufferevent). IsFree h r.1 in
    let adds = good.adds in
    if_intro P (old && not (positive l.limit.write_limit))
      (λ used_up. rw e (record {
        bucket = s;
        reads = reads;
        writes = ground arith;
        read_refill = ground (arith, adds);
        write_refill = ground (arith, adds);
      }))
      (λ not_used.
        if_intro P (not old && positive l.limit.write_limit)
          (λ back.
            if_intro
              (λ (l' : Limiting).
                LimitedWith h b.reads.suspended (mark bw false b.writes.suspended) l' l'.cfg)
              (not b.reads.suspended.by_bw)
              (λ free. rw e (record {
                bucket = s;
                reads = reads;
                writes = ground arith;
                read_refill = ground arith;
                write_refill = refl;
              }))
              (λ held. rw e (record {
                bucket = s;
                reads = reads;
                writes = ground arith;
                read_refill = read_refill;
                write_refill = refl;
              })))
          (λ same. rw e (record {
            bucket = s;
            reads = reads;
            writes = ground arith;
            read_refill = read_refill;
            write_refill = write_refill;
          })))

-- The sides have been settled, and the refill event is added again if that is needed.
settled-Limited :
    (h : Host) (r w : Suspended) (l : Limiting) (p : ℕ) (again : Bool)
    → h.adds ≡ true
    → l.cfg ≡ some p
    → IsBucket (h.cfgs p) l.limit
    → positive l.limit.read_limit || r.by_bw ≡ true
    → positive l.limit.write_limit || w.by_bw ≡ true
    → not r.by_bw || again ≡ true
    → not w.by_bw || again ≡ true
    → LimitedBy h r w (some (if again then add_refill h l else l))
settled-Limited h r w l p true adds e s reads writes read_again write_again = rw e (record {
  bucket = s;
  reads = reads;
  writes = writes;
  read_refill = ground (arith, adds);
  write_refill = ground (arith, adds);
})
settled-Limited h r w l p false adds e s reads writes read_again write_again = rw e (record {
  bucket = s;
  reads = reads;
  writes = writes;
  read_refill = ground (arith, read_again);
  write_refill = ground (arith, write_again);
})

resumed_lem :
    (s : Side) (k : Bool)
    → (if s.suspended.by_bw && k then unsuspend bw s else s).suspended.by_bw
      ≡ s.suspended.by_bw && not k
unfolding unsuspend mark
resumed_lem s k =
    if_intro (λ (t : Side). t.suspended.by_bw ≡ s.suspended.by_bw && not k) (s.suspended.by_bw && k)
      (λ on. ground arith) (λ off. ground arith)

started_lem :
    (s : Side) (k : Bool) → (if k then unsuspend bw s else suspend bw s).suspended.by_bw ≡ not k
unfolding unsuspend suspend mark
started_lem s true = refl
started_lem s false = refl

pub resume_refilled-IsFree :
    (h : Host) (b : Bufferevent) (l : Limiting) (p : ℕ)
    → GoodHost h
    → IsBucket (h.cfgs p) l.limit
    → positive l.limit.read_limit || b.reads.suspended.by_bw ≡ true
    → positive l.limit.write_limit || b.writes.suspended.by_bw ≡ true
    → l.cfg ≡ some p
    → IsFree h (resume_refilled h b l)
unfolding resume_refilled IsFree
resume_refilled-IsFree h b l p good s reads writes e =
    let r = resumed_lem b.reads (positive l.limit.read_limit) in
    let w = resumed_lem b.writes (positive l.limit.write_limit) in
    settled-Limited h _ _ l p _ good.adds e s (ground (arith, r, reads)) (ground (arith, w, writes))
      (ground (arith, r)) (ground (arith, w))

pub start_limit-IsFree :
    (h : Host) (b : Bufferevent) (l : Limiting) (p : ℕ)
    → GoodHost h
    → IsBucket (h.cfgs p) l.limit
    → l.cfg ≡ some p
    → IsFree h (start_limit h b l)
unfolding start_limit IsFree
start_limit-IsFree h b l p good s e =
    let r = started_lem b.reads (positive l.limit.read_limit) in
    let w = started_lem b.writes (positive l.limit.write_limit) in
    settled-Limited h _ _ l p _ good.adds e s (ground (arith, r)) (ground (arith, w))
      (ground (arith, r)) (ground (arith, w))
