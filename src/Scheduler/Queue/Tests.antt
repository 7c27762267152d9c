-- ===== src/Scheduler/Queue/Tests.antt =====
-- A queue with two due jobs whose callback fails, one of them for the last time.
use mellow_programming_langu.Prelude.{◌+◌, ◌*◌, ◌≤◌, ◌≡◌, refl, none, some, [], ◌∷◌, map, length}
use mellow_programming_langu.Scheduler.Queue.Attempts.{AllRoom, drain_queue_bounds}
use mellow_programming_langu.Scheduler.Queue.Retry.{Requeued, retry_queue_item_keeps}
use mellow_programming_langu.Text.{Text, codes}
use mellow_programming_langu.Scheduler.Backoff.{compute_backoff_delay_ms}
use mellow_programming_langu.Scheduler.Tests.{least, doubling}
use mellow_programming_langu.Scheduler.Queue.{
  Item, Files, World, refused, retry, retry_queue_item, drain_queue, process_items,
  process_queue_item, saved, attempt_of, without_dead, is_candidate, queue_item, settle, fail_item,
  bury_item, move_to_dead_letter, retry_item, retry_after, in_front, then_rest, read_clock,
  append_log, now_iso, is_dead, started, verdict_of, attempts_allowed, limit_of,
}
use mellow_programming_langu.Scheduler.Queue.Conserve.{
  count_id, IsQuiet, AllLive, drain_queue_keeps,
}

abbrev failing : World Text
failing = record {
  clock = λ n. n * 1000000;
  jitter = least;
  callback = λ item f. (refused none, item, f);
}

abbrev last_try : Item Text
last_try = queue_item (codes "a") (codes "main") 0 0 0 doubling (codes "run")

abbrev first_try : Item Text
first_try = queue_item (codes "b") (codes "main") 0 0 1 doubling (codes "run")

abbrev files : Files Text
files = record { items = last_try ∷ first_try ∷ []; dead = []; log = []; readings = 5 }

-- The files that draining leaves.
abbrev drained : Files Text
drained = elim (drain_queue failing none files) [ none ↦ files | some g ↦ g ]

statuses : map (λ (item : Item Text). item.status) drained.items ≡ retry ∷ []
unfolding drain_queue process_items process_queue_item saved without_dead is_candidate queue_item
    settle fail_item bury_item move_to_dead_letter retry_item retry_after compute_backoff_delay_ms
    in_front then_rest read_clock append_log now_iso is_dead started verdict_of attempts_allowed
    attempt_of limit_of
statuses = refl

buried : map (λ (item : Item Text). item.last_error) drained.dead ≡ some (codes "job failed") ∷ []
unfolding drain_queue process_items process_queue_item saved without_dead is_candidate queue_item
    settle fail_item bury_item move_to_dead_letter retry_item retry_after compute_backoff_delay_ms
    in_front then_rest read_clock append_log now_iso is_dead started verdict_of attempts_allowed
    attempt_of limit_of
buried = refl

quiet : IsQuiet failing
quiet = λ item f. (refl, refl, refl)

drain_queue_keeps_example :
    (count_id (codes "a") drained.items + count_id (codes "a") drained.dead
      ≡ count_id (codes "a") files.items + count_id (codes "a") files.dead)
    × AllLive drained.items
unfolding drain_queue process_items process_queue_item saved without_dead is_candidate queue_item
    settle fail_item bury_item move_to_dead_letter retry_item retry_after compute_backoff_delay_ms
    in_front then_rest read_clock append_log now_iso is_dead started verdict_of attempts_allowed
    attempt_of limit_of
drain_queue_keeps_example =
    drain_queue_keeps failing none files drained (codes "a") quiet (refl, (refl, tt)) refl

drain_queue_bounds_example : AllRoom drained.items × (length drained.items ≤ length files.items)
unfolding drain_queue process_items process_queue_item saved without_dead is_candidate queue_item
    settle fail_item bury_item move_to_dead_letter retry_item retry_after compute_backoff_delay_ms
    in_front then_rest read_clock append_log now_iso is_dead started verdict_of attempts_allowed
    attempt_of limit_of
drain_queue_bounds_example =
    drain_queue_bounds failing none files drained ((λ h. cc), ((λ h. cc), tt)) refl

retry_queue_item_keeps_example :
    Requeued failing (codes "a") drained (retry_queue_item failing (codes "a") drained)
retry_queue_item_keeps_example = retry_queue_item_keeps failing (codes "a") drained
