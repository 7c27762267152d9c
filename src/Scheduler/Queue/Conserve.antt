-- ===== src/Scheduler/Queue/Conserve.antt =====
-- The ids in the queue and the dead letter of src/mellowlang/agents/scheduling/drain.py.
use mathlib.Core.Option.{some-injective}
use mellow_programming_langu.Prelude.{
  ℕ, ◌+◌, ◌-◌, ◌*◌, ◌≡◌, refl, ap, ◌∙◌, subst, false, ◌&&◌, Option, none, some, List, [], ◌∷◌, ◌++◌,
  arith, ltb, leb, if◌then◌else◌, if_split,
}
use mellow_programming_langu.Text.{Text, text_eq}
use mellow_programming_langu.Scheduler.Backoff.{compute_backoff_delay_ms}
use mellow_programming_langu.Scheduler.Queue.{
  Item, Files, World, Verdict, success, failure, is_dead, is_candidate, read_clock, append_log,
  now_iso, dead_copy, move_to_dead_letter, retry_item, fail_item, finish_item, settle, verdict_of,
  started, process_queue_item, process_items, without_dead, limit_of, drain_queue, bury_item,
  attempts_allowed, attempt_of, end_of_time, retry_after, then_rest, saved, start, in_front,
}

module _ {Job : Type 0} where
  unfoldable pub weigh : Text → Item Job → ℕ
  weigh id item = if text_eq item.id id then 1 else 0

  -- How many items have the id.
  unfoldable pub count_id : Text → List (Item Job) → ℕ
  unfolding weigh
  count_id id [] = 0
  count_id id (item ∷ items) = weigh id item + count_id id items

  pub count_id-append :
      (id : Text) (xs ys : List (Item Job))
      → count_id id (xs ++ ys) ≡ count_id id xs + count_id id ys
  unfolding count_id
  count_id-append id [] ys = omega arith
  count_id-append id (x ∷ xs) ys = omega (arith, count_id-append id xs ys)

  pub count_id-last :
      (id : Text) (xs : List (Item Job)) (x : Item Job)
      → count_id id (xs ++ x ∷ []) ≡ count_id id xs + weigh id x
  count_id-last id xs x = count_id-append id xs (x ∷ []) ∙ unfold count_id in omega arith

  live_weigh : Text → Item Job → ℕ
  live_weigh id item = if is_dead item then 0 else weigh id item

  pub weigh_id : (id : Text) (a b : Item Job) → a.id ≡ b.id → weigh id a ≡ weigh id b
  unfolding weigh
  weigh_id id a b e = rw e

  module _ (w : World Job) (id : Text) where
    -- An item that a step returns, with what it added to the dead letter, weighs what it did.
    abbrev Keeps : Item Job → Files Job → Item Job × Files Job → Type 0
    Keeps item f (item', f') =
        live_weigh id item' + count_id id f'.dead ≡ weigh id item + count_id id f.dead

    abbrev Keeps? : Item Job → Files Job → Option (Item Job × Files Job) → Type 0
    Keeps? item f none = Unit
    Keeps? item f (some r) = Keeps item f r

    finish-Keeps :
        (r : Text) (item : Item Job) (f : Files Job) → Keeps item f (finish_item w r item f)
    unfolding finish_item append_log live_weigh is_dead
    finish-Keeps r item f = omega (arith, weigh_id id (finish_item w r item f).0 item refl)

    retry_keeps :
        (o : Option ℕ) (item : Item Job) (f : Files Job) → Keeps? item f (retry_after w o item f)
    unfolding retry_after append_log live_weigh is_dead weigh
    retry_keeps none item f = tt
    retry_keeps (some d) item f =
        if_split (Keeps? item f) (leb end_of_time (w.clock f.readings + d * 1000)) (λ _. tt)
          (λ _. refl)

    bury-Keeps : (e : Text) (item : Item Job) (f : Files Job) → Keeps item f (bury_item w e item f)
    unfolding bury_item move_to_dead_letter append_log live_weigh is_dead
    bury-Keeps e item f =
        let h = count_id-last id f.dead (dead_copy w e item f) in
        let k = weigh_id id (dead_copy w e item f) item refl in omega arith

    fail_keeps : (e : Text) (item : Item Job) (f : Files Job) → Keeps? item f (fail_item w e item f)
    unfolding fail_item retry_item weigh
    fail_keeps e item f =
        let item' : Item Job = record item {
          last_error = some e;
          finished_at = some (now_iso w f);
        } in
        if_split (Keeps? item f) (leb (attempts_allowed item) item.attempts)
          (λ _. bury-Keeps e item' (read_clock f))
          (λ _.
            retry_keeps (compute_backoff_delay_ms w.jitter item.backoff (attempt_of item)) item'
              (read_clock f))

    settle_keeps :
        (v : Verdict) (item : Item Job) (f : Files Job) → Keeps? item f (settle w v item f)
    unfolding settle
    settle_keeps (success r) item f = finish-Keeps r item f
    settle_keeps (failure e) item f = fail_keeps e item f

  -- The callback leaves the queue, the dead letter and the id of its item as they are.
  abbrev pub IsQuiet : World Job → Type 0
  IsQuiet w =
      (item : Item Job) (f : Files Job)
      → ((w.callback item f).1.id ≡ item.id)
        × ((w.callback item f).2.items ≡ f.items)
        × ((w.callback item f).2.dead ≡ f.dead)

  Keeps?-same :
      (w : World Job) (id : Text) (item item' : Item Job) (f f' : Files Job)
      (r : Option (Item Job × Files Job))
      → item'.id ≡ item.id
      → f'.dead ≡ f.dead
      → Keeps? w id item' f' r
      → Keeps? w id item f r
  Keeps?-same w id item item' f f' none p q h = tt
  Keeps?-same w id item item' f f' (some r) p q h =
      let e : count_id id f'.dead ≡ count_id id f.dead = ap (count_id id) q in
      omega (arith, weigh_id id item' item p)

  process_keeps :
      (w : World Job) (id : Text)
      → IsQuiet w
      → (item : Item Job) (f : Files Job) → Keeps? w id item f (process_queue_item w item f)
  unfolding process_queue_item
  process_keeps w id quiet item f =
      let item' = started w item f in
      let f0 = append_log w (start item.id) (read_clock f) in
      let (outcome, left, f') = w.callback item' f0 in
      let (same, _, dead) = quiet item' f0 in
      Keeps?-same w id item left f f' (settle w (verdict_of outcome) left f') same dead
        (settle_keeps w id (verdict_of outcome) left f')

  -- No item is marked as a dead letter.
  abbrev pub AllLive : List (Item Job) → Type 0
  AllLive [] = Unit
  AllLive (item ∷ items) = (is_dead item ≡ false) × AllLive items

  -- Whatever a run over the items returns, every id is there as often as before.
  abbrev AllKept :
      Text → List (Item Job) → Files Job → Option (List (Item Job) × Files Job) → Type 0
  AllKept id items f none = Unit
  AllKept id items f (some (items', f')) =
      count_id id (without_dead items') + count_id id f'.dead
      ≡ count_id id items + count_id id f.dead

  count_id-without_dead :
      (id : Text) (item : Item Job) (items : List (Item Job))
      → count_id id (without_dead (item ∷ items))
        ≡ live_weigh id item + count_id id (without_dead items)
  unfolding without_dead live_weigh count_id
  count_id-without_dead id item items =
      if_split (λ xs. count_id id xs ≡ live_weigh id item + count_id id (without_dead items))
        (is_dead item) (λ e. unfold live_weigh in ground arith)
        (λ e. unfold live_weigh in ground arith)

  in_front_kept :
      (w : World Job) (id : Text) (item item' : Item Job) (items : List (Item Job))
      (f f' : Files Job) (r : Option (List (Item Job) × Files Job))
      → Keeps w id item f (item', f')
      → AllKept id items f' r
      → AllKept id (item ∷ items) f (in_front w item' r)
  unfolding in_front
  in_front_kept w id item item' items f f' none h k = tt
  in_front_kept w id item item' items f f' (some (rest, f'')) h k =
      unfold count_id in omega (arith, count_id-without_dead id item' rest)

  then_rest_kept :
      (w : World Job) (id : Text) (item : Item Job) (items : List (Item Job)) (f : Files Job)
      (r : Option (Item Job × Files Job)) (k : Files Job → Option (List (Item Job) × Files Job))
      → Keeps? w id item f r
      → ((f' : Files Job) → AllKept id items f' (k f'))
      → AllKept id (item ∷ items) f (then_rest w r k)
  unfolding then_rest
  then_rest_kept w id item items f none k h all = tt
  then_rest_kept w id item items f (some (item', f')) k h all =
      in_front_kept w id item item' items f f' (k f') h (all f')

  pass-Keeps :
      (w : World Job) (id : Text) (item : Item Job) (f : Files Job)
      → is_dead item ≡ false
      → Keeps w id item f (item, f)
  unfolding live_weigh
  pass-Keeps w id item f live = rw live

  process_items_kept :
      (w : World Job) (id : Text)
      → IsQuiet w
      → (now limit : ℕ) (items : List (Item Job)) (f : Files Job) → AllLive items
      → AllKept id items f (process_items w now limit items f)
  unfolding process_items
  process_items_kept w id quiet now limit [] f live = unfold without_dead in refl
  process_items_kept w id quiet now limit (item ∷ items) f (live, lives) =
      let ih = λ (n : ℕ) (f' : Files Job). process_items_kept w id quiet now n items f' lives in
      if_split (AllKept id (item ∷ items) f) (is_candidate item now && ltb 0 limit)
        (λ _.
          then_rest_kept w id item items f (process_queue_item w item f)
            (process_items w now (limit - 1) items) (process_keeps w id quiet item f)
            (ih (limit - 1)))
        (λ _.
          in_front_kept w id item item items f f (process_items w now limit items f)
            (pass-Keeps w id item f live) (ih limit f))

  without_dead-AllLive : (items : List (Item Job)) → AllLive (without_dead items)
  unfolding without_dead
  without_dead-AllLive [] = tt
  without_dead-AllLive (item ∷ items) =
      if_split AllLive (is_dead item) (λ _. without_dead-AllLive items)
        (λ e. (e, without_dead-AllLive items))

  drained_kept :
      (id : Text) (items : List (Item Job)) (f : Files Job)
      (r : Option (List (Item Job) × Files Job)) (g : Files Job)
      → AllKept id items f r
      → saved r ≡ some g
      → (count_id id g.items + count_id id g.dead ≡ count_id id items + count_id id f.dead)
        × AllLive g.items
  unfolding saved
  drained_kept id items f none g k h = cc
  drained_kept id items f (some (items', f')) g k h =
      subst
        (λ (g : Files Job).
          (count_id id g.items + count_id id g.dead ≡ count_id id items + count_id id f.dead)
          × AllLive g.items)
        (some-injective _ _ h) (k, without_dead-AllLive items')

  -- Draining a queue without dead letters keeps each id as often as it was, in the queue and the
  -- dead letter together, and leaves no dead letter in the queue, when the callback leaves both
  -- files and the id of its item alone.
  pub drain_queue_keeps :
      (w : World Job) (limit : Option ℕ) (f g : Files Job) (id : Text)
      → IsQuiet w
      → AllLive f.items
      → drain_queue w limit f ≡ some g
      → (count_id id g.items + count_id id g.dead ≡ count_id id f.items + count_id id f.dead)
        × AllLive g.items
  unfolding drain_queue
  drain_queue_keeps w limit f g id quiet live h =
      drained_kept id f.items (read_clock f)
        (process_items w (w.clock f.readings) (limit_of w limit f.items) f.items (read_clock f)) g
        (process_items_kept w id quiet (w.clock f.readings) (limit_of w limit f.items) f.items
          (read_clock f) live)
        h
