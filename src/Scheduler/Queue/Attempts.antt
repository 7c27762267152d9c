-- ===== src/Scheduler/Queue/Attempts.antt =====
-- What draining the queue of src/mellowlang/agents/scheduling/drain.py leaves in it, whatever the
-- callback does while it runs.
use mathlib.Core.Option.{some-injective}
use mellow_programming_langu.Prelude.{
  ℕ, suc, ◌+◌, ◌-◌, ◌*◌, ◌≤◌, ◌<◌, ◌≡◌, refl, ap, subst, false, ◌&&◌, Option, none, some, List, [],
  ◌∷◌, arith, ltb, leb, if_split, length,
}
use mellow_programming_langu.Text.{Text}
use mellow_programming_langu.Scheduler.Backoff.{compute_backoff_delay_ms}
use mellow_programming_langu.Scheduler.Queue.{
  Item, Files, World, Verdict, success, failure, retry, is_dead, attempts_allowed, attempt_of,
  end_of_time, is_candidate, read_clock, append_log, now_iso, retry_after, retry_item, bury_item,
  fail_item, finish_item, settle, verdict_of, started, process_queue_item, in_front, then_rest,
  process_items, without_dead, saved, limit_of, drain_queue, start,
}

module _ {Job : Type 0} where
  -- An item that waits for a retry has attempts left.
  abbrev pub HasRoom : Item Job → Type 0
  HasRoom item = item.status ≡ retry → item.attempts < attempts_allowed item

  abbrev pub AllRoom : List (Item Job) → Type 0
  AllRoom [] = Unit
  AllRoom (item ∷ items) = HasRoom item × AllRoom items

  not_above :
      (item : Item Job)
      → leb (attempts_allowed item) item.attempts ≡ false
      → item.attempts < attempts_allowed item
  not_above item h = ground arith

  abbrev Room? : Option (Item Job × Files Job) → Type 0
  Room? none = Unit
  Room? (some (item, f)) = HasRoom item

  retry_room :
      (w : World Job) (o : Option ℕ) (item : Item Job) (f : Files Job)
      → item.attempts < attempts_allowed item
      → Room? (retry_after w o item f)
  unfolding retry_after attempts_allowed
  retry_room w none item f lt = tt
  retry_room w (some d) item f lt =
      if_split Room? (leb end_of_time (w.clock f.readings + d * 1000)) (λ _. tt) (λ _ _. lt)

  fail_room :
      (w : World Job) (e : Text) (item : Item Job) (f : Files Job) → Room? (fail_item w e item f)
  unfolding fail_item retry_item bury_item attempts_allowed
  fail_room w e item f =
      let failed : Item Job = record item {
        last_error = some e;
        finished_at = some (now_iso w f);
      } in
      if_split Room? (leb (attempts_allowed item) item.attempts) (λ _ h. cc)
        (λ k.
          retry_room w (compute_backoff_delay_ms w.jitter item.backoff (attempt_of item)) failed
            (read_clock f) (not_above item k))

  settle_room :
      (w : World Job) (v : Verdict) (item : Item Job) (f : Files Job) → Room? (settle w v item f)
  unfolding settle finish_item
  settle_room w (success r) item f = λ h. cc
  settle_room w (failure e) item f = fail_room w e item f

  -- However the callback leaves the item, it has room for a retry.
  process_room :
      (w : World Job) (item : Item Job) (f : Files Job) → Room? (process_queue_item w item f)
  unfolding process_queue_item
  process_room w item f =
      let (outcome, left, f') =
        w.callback (started w item f) (append_log w (start item.id) (read_clock f)) in
      settle_room w (verdict_of outcome) left f'

  -- A run over the items returns as many items, each with room.
  abbrev AllNext : List (Item Job) → Option (List (Item Job) × Files Job) → Type 0
  AllNext items none = Unit
  AllNext items (some (items', f)) = (length items' ≡ length items) × AllRoom items'

  in_front_next :
      (w : World Job) (item item' : Item Job) (items : List (Item Job))
      (r : Option (List (Item Job) × Files Job))
      → HasRoom item'
      → AllNext items r
      → AllNext (item ∷ items) (in_front w item' r)
  unfolding in_front
  in_front_next w item item' items none room h = tt
  in_front_next w item item' items (some (rest, f)) room h = (ap suc h.0, (room, h.1))

  then_rest_next :
      (w : World Job) (item : Item Job) (items : List (Item Job))
      (r : Option (Item Job × Files Job)) (k : Files Job → Option (List (Item Job) × Files Job))
      → Room? r
      → ((f : Files Job) → AllNext items (k f))
      → AllNext (item ∷ items) (then_rest w r k)
  unfolding then_rest
  then_rest_next w item items none k h all = tt
  then_rest_next w item items (some (item', f)) k h all =
      in_front_next w item item' items (k f) h (all f)

  process_items_next :
      (w : World Job) (now limit : ℕ) (items : List (Item Job)) (f : Files Job)
      → AllRoom items
      → AllNext items (process_items w now limit items f)
  unfolding process_items
  process_items_next w now limit [] f room = (refl, tt)
  process_items_next w now limit (item ∷ items) f (room, rooms) =
      let ih = λ (n : ℕ) (f' : Files Job). process_items_next w now n items f' rooms in
      if_split (AllNext (item ∷ items)) (is_candidate item now && ltb 0 limit)
        (λ _.
          then_rest_next w item items (process_queue_item w item f)
            (process_items w now (limit - 1) items) (process_room w item f) (ih (limit - 1)))
        (λ _. in_front_next w item item items (process_items w now limit items f) room (ih limit f))

  without_dead-AllRoom : (items : List (Item Job)) → AllRoom items → AllRoom (without_dead items)
  unfolding without_dead
  without_dead-AllRoom [] h = tt
  without_dead-AllRoom (item ∷ items) (room, rooms) =
      if_split AllRoom (is_dead item) (λ _. without_dead-AllRoom items rooms)
        (λ _. (room, without_dead-AllRoom items rooms))

  length-without_dead-le : (items : List (Item Job)) → length (without_dead items) ≤ length items
  unfolding without_dead
  length-without_dead-le [] = omega arith
  length-without_dead-le (item ∷ items) = ground (arith, length-without_dead-le items)

  saved_next :
      (items : List (Item Job)) (r : Option (List (Item Job) × Files Job)) (g : Files Job)
      → AllNext items r
      → saved r ≡ some g
      → AllRoom g.items × (length g.items ≤ length items)
  unfolding saved
  saved_next items none g h k = cc
  saved_next items (some (items', f)) g (same, rooms) k =
      subst (λ (g : Files Job). AllRoom g.items × (length g.items ≤ length items))
        (some-injective _ _ k)
        (without_dead-AllRoom items' rooms, omega (arith, length-without_dead-le items'))

  -- Whatever the callback does to the files and, while it runs, to the item that it is handed, after
  -- draining by one worker every item that waits for a retry has attempts left, when this was so
  -- before, and the queue is no longer than before: no item is added for one that the callback
  -- itself puts into the queue.
  pub drain_queue_bounds :
      (w : World Job) (limit : Option ℕ) (f g : Files Job)
      → AllRoom f.items
      → drain_queue w limit f ≡ some g
      → AllRoom g.items × (length g.items ≤ length f.items)
  unfolding drain_queue
  drain_queue_bounds w limit f g rooms h =
      saved_next f.items
        (process_items w (w.clock f.readings) (limit_of w limit f.items) f.items (read_clock f)) g
        (process_items_next w (w.clock f.readings) (limit_of w limit f.items) f.items (read_clock f)
          rooms)
        h
