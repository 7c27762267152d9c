-- ===== src/Scheduler/Queue.antt =====
-- src/mellowlang/agents/scheduling/queue.py and drain.py: the items of the queue, the dead letter,
-- and the draining by one worker. The files of the state directory are the record `Files`; a job's
-- own fields, which no operation here changes, are the type `Job`.
pub mod Conserve
pub mod Attempts
pub mod Retry
mod Tests
use mellow_programming_langu.Prelude.{
  ℕ, ◌+◌, ◌-◌, ◌*◌, ◌/◌, max, Bool, true, false, ◌&&◌, Option, none, some, List, [], ◌∷◌, ◌++◌, ltb,
  leb, ◌==◌, if◌then◌else◌, length,
}
use mellow_programming_langu.Text.{Text, codes, text_eq, is_empty}
use mellow_programming_langu.Scheduler.Backoff.{Backoff, Jitter, compute_backoff_delay_ms}

pub data Status : Type 0 where
  queued running retry done dead_letter : Status

-- An item; times are whole seconds, as `_now_iso` cuts them.
pub record Item (Job : Type 0) : Type 0 where
  pub id : Text
  pub queue : Text
  pub status : Status
  pub queued_at : ℕ
  pub available_at : Option ℕ
  pub started_at : Option ℕ
  pub finished_at : Option ℕ
  pub result : Option Text
  pub attempts : ℕ
  pub max_attempts : ℕ
  pub last_error : Option Text
  pub next_retry_delay_ms : Option ℕ
  pub dead_lettered_at : Option ℕ
  pub backoff : Backoff
  pub job : Job

pub data LogEvent : Type 0 where
  enqueue start finish retried dead_lettered requeue : Text → LogEvent

-- queue.json, dead_letter.json and queue_log.jsonl, with the number of clock readings so far.
pub record Files (Job : Type 0) : Type 0 where
  pub items : List (Item Job)
  pub dead : List (Item Job)
  pub log : List (ℕ × LogEvent)
  pub readings : ℕ

-- What a callback returns or raises. A result whose `ok` is `False` counts as an error.
pub data Outcome : Type 0 where
  returned : Text → Outcome
  refused : Option Text → Outcome
  raised : Text → Outcome

-- The world that the queue runs in: the clock in microseconds at each reading, the generator of
-- the delays, and the callback. It is handed the item itself, the dictionary that `drain_queue`
-- saves later, so that it gives back the item as it leaves it, and it may change the files, too.
-- The fields that it leaves in the item have the types that they had, and it does not hold on to the
-- item when it has returned or raised.
pub record World (Job : Type 0) : Type 0 where
  pub clock : ℕ → ℕ
  pub jitter : Jitter
  pub callback : Item Job → Files Job → Outcome × Item Job × Files Job

pub data Verdict : Type 0 where
  success : Text → Verdict
  failure : Text → Verdict

-- `str(result.get('error') or 'job failed')`
pub verdict_of : Outcome → Verdict
verdict_of (returned r) = success r
verdict_of (refused none) = failure (codes "job failed")
verdict_of (refused (some e)) = failure (if is_empty e then codes "job failed" else e)
verdict_of (raised e) = failure e

-- The microseconds from the epoch to the year 10000, which no `datetime` reaches.
abbrev pub end_of_time : ℕ
end_of_time = 253402300800000000

pub is_waiting : Status → Bool
is_waiting queued = true
is_waiting retry = true
is_waiting _ = false

module _ {Job : Type 0} where
  pub read_clock : Files Job → Files Job
  read_clock f = record f { readings = f.readings + 1 }

  -- `available is None or available <= now`; the stored time is in seconds.
  pub is_available : Item Job → ℕ → Bool
  is_available item now = elim item.available_at [ none ↦ true | some t ↦ leb (t * 1000000) now ]

  pub is_candidate : Item Job → ℕ → Bool
  unfolding is_available is_waiting
  is_candidate item now = is_waiting item.status && is_available item now

  pub is_dead : Item Job → Bool
  is_dead item = elim item.status [ dead_letter ↦ true | _ ↦ false ]

  -- `int(item.get('max_attempts') or 1)`
  pub attempts_allowed : Item Job → ℕ
  attempts_allowed item = if item.max_attempts == 0 then 1 else item.max_attempts

  -- `int(item.get('attempts') or 1)`
  pub attempt_of : Item Job → ℕ
  attempt_of item = if item.attempts == 0 then 1 else item.attempts

  -- `_queue_item_from_trigger` with the id that `uuid4` gives, and the times of two readings.
  pub queue_item : Text → Text → ℕ → ℕ → ℕ → Backoff → Job → Item Job
  queue_item id queue queued_at available_at retries backoff job = record {
    id = id;
    queue = queue;
    status = queued;
    queued_at = queued_at;
    available_at = some available_at;
    started_at = none;
    finished_at = none;
    result = none;
    attempts = 0;
    max_attempts = max 1 (retries + 1);
    last_error = none;
    next_retry_delay_ms = none;
    dead_lettered_at = none;
    backoff = backoff;
    job = job;
  }

  pub without_dead : List (Item Job) → List (Item Job)
  unfolding is_dead
  without_dead [] = []
  without_dead (item ∷ items) =
      if is_dead item then without_dead items else item ∷ without_dead items

  -- The files after `_save_queue` at the end of `drain_queue`.
  pub saved : Option (List (Item Job) × Files Job) → Option (Files Job)
  unfolding without_dead
  saved none = none
  saved (some (items, f)) = some (record f { items = without_dead items })

  module _ (w : World Job) where
    -- `_now_iso()`: the seconds of the next reading
    pub now_iso : Files Job → ℕ
    now_iso f = w.clock f.readings / 1000000

    -- `_append_jsonl` of an event with the time of a reading
    pub append_log : LogEvent → Files Job → Files Job
    unfolding now_iso read_clock
    append_log e f = record (read_clock f) { log = f.log ++ (now_iso f, e) ∷ [] }

    pub enqueue_job : Text → Text → ℕ → Backoff → Job → Files Job → Files Job
    unfolding read_clock append_log queue_item now_iso
    enqueue_job id queue retries backoff job f =
        let f' = read_clock f in
        let item = queue_item id queue (now_iso f) (now_iso f') retries backoff job in
        append_log (enqueue id) (record (read_clock f') { items = f.items ++ item ∷ [] })

    -- The copy of an item that `_move_to_dead_letter` appends.
    pub dead_copy : Text → Item Job → Files Job → Item Job
    unfolding now_iso
    dead_copy reason item f = record item {
      status = dead_letter;
      dead_lettered_at = some (now_iso f);
      last_error = if is_empty reason then item.last_error else some reason;
    }

    pub move_to_dead_letter : Text → Item Job → Files Job → Files Job
    unfolding dead_copy append_log read_clock
    move_to_dead_letter reason item f =
        append_log (dead_lettered item.id)
          (record (read_clock f) { dead = f.dead ++ dead_copy reason item f ∷ [] })

    -- The retry branch: the delay counts from a reading in microseconds; `none` is an exception,
    -- which leaves the function: one of the delay, or the `OverflowError` of a time that is too
    -- late.
    pub retry_after : Option ℕ → Item Job → Files Job → Option (Item Job × Files Job)
    unfolding read_clock append_log
    retry_after none item f = none
    retry_after (some delay) item f =
        let time = w.clock f.readings + delay * 1000 in
        if leb end_of_time time
        then none
        else some (
          record item {
            status = retry;
            available_at = some (time / 1000000);
            next_retry_delay_ms = some delay;
          },
          append_log (retried item.id) (read_clock f),
        )

    pub retry_item : Item Job → Files Job → Option (Item Job × Files Job)
    unfolding retry_after attempt_of
    retry_item item f =
        retry_after (compute_backoff_delay_ms w.jitter item.backoff (attempt_of item)) item f

    -- The last failure: the item goes to the dead letter.
    pub bury_item : Text → Item Job → Files Job → Item Job × Files Job
    unfolding move_to_dead_letter append_log
    bury_item error item f = (
      record item { status = dead_letter },
      append_log (dead_lettered item.id) (move_to_dead_letter error item f),
    )

    -- The `except` branch of `_process_queue_item`.
    pub fail_item : Text → Item Job → Files Job → Option (Item Job × Files Job)
    unfolding attempts_allowed bury_item retry_item now_iso read_clock
    fail_item error item f =
        let item' = record item { last_error = some error; finished_at = some (now_iso f) } in
        if leb (attempts_allowed item) item.attempts
        then some (bury_item error item' (read_clock f))
        else retry_item item' (read_clock f)

    pub finish_item : Text → Item Job → Files Job → Item Job × Files Job
    unfolding now_iso read_clock append_log
    finish_item r item f = (
      record item {
        result = some r;
        status = done;
        finished_at = some (now_iso f);
        last_error = none;
      },
      append_log (finish item.id) (read_clock f),
    )

    pub settle : Verdict → Item Job → Files Job → Option (Item Job × Files Job)
    unfolding finish_item fail_item
    settle (success r) item f = some (finish_item r item f)
    settle (failure e) item f = fail_item e item f

    -- The item as `_process_queue_item` hands it to the callback.
    pub started : Item Job → Files Job → Item Job
    unfolding now_iso
    started item f = record item {
      status = running;
      started_at = some (now_iso f);
      attempts = item.attempts + 1;
    }

    pub process_queue_item : Item Job → Files Job → Option (Item Job × Files Job)
    unfolding started settle verdict_of read_clock append_log
    process_queue_item item f =
        let item' = started item f in
        let (outcome, left, f') = w.callback item' (append_log (start item.id) (read_clock f)) in
        settle (verdict_of outcome) left f'

    -- The result of a first item in front of those of the others; `none` is an exception.
    pub in_front :
        Item Job → Option (List (Item Job) × Files Job) → Option (List (Item Job) × Files Job)
    in_front item none = none
    in_front item (some (items, f)) = some (item ∷ items, f)

    -- The rest of the list runs on the files that the item left.
    pub then_rest :
        Option (Item Job × Files Job)
        → (Files Job → Option (List (Item Job) × Files Job))
        → Option (List (Item Job) × Files Job)
    unfolding in_front
    then_rest none k = none
    then_rest (some (item, f)) k = in_front item (k f)

    -- The candidates, at most `limit` of them, are processed in the order of the list; the others
    -- stay as they are. `none` is an exception that leaves `drain_queue`.
    pub process_items : ℕ → ℕ → List (Item Job) → Files Job → Option (List (Item Job) × Files Job)
    unfolding is_candidate in_front then_rest
    process_items now limit [] f = some ([], f)
    process_items now limit (item ∷ items) f =
        let pass = in_front item (process_items now limit items f) in
        let work =
          then_rest (process_queue_item item f) (λ f'. process_items now (limit - 1) items f') in
        if is_candidate item now && ltb 0 limit then work else pass

    -- `candidates[:max_items]` takes no more items than there are.
    pub limit_of : Option ℕ → List (Item Job) → ℕ
    limit_of none items = length items
    limit_of (some k) items = k

    -- `drain_queue` with one worker. The list that is saved at the end is the one that was loaded
    -- at the start, whatever the files hold by then.
    pub drain_queue : Option ℕ → Files Job → Option (Files Job)
    unfolding saved read_clock limit_of
    drain_queue limit f =
        saved (process_items (w.clock f.readings) (limit_of limit f.items) f.items (read_clock f))

    -- The result of a search behind an item that stays.
    pub keep_first :
        Item Job → Option (Item Job × List (Item Job)) → Option (Item Job × List (Item Job))
    keep_first item none = none
    keep_first item (some (found, others)) = some (found, item ∷ others)

    -- The first item of the dead letter with the id, and the others.
    pub take_dead : Text → List (Item Job) → Option (Item Job × List (Item Job))
    unfolding text_eq keep_first
    take_dead id [] = none
    take_dead id (item ∷ items) =
        let rest = keep_first item (take_dead id items) in
        if text_eq item.id id then some (item, items) else rest

    pub revived : Item Job → ℕ → Item Job
    revived item now = record item {
      status = queued;
      queue = codes "main";
      started_at = none;
      finished_at = none;
      result = none;
      available_at = some now;
    }

    pub requeued : Option (Item Job × List (Item Job)) → Files Job → Option (Files Job)
    unfolding revived now_iso read_clock append_log
    requeued none f = none
    requeued (some (item, others)) f = some (
        append_log (requeue item.id) (record (read_clock f) {
          items = f.items ++ revived item (now_iso f) ∷ [];
          dead = others;
        }))

    -- `none` is the answer that there is no such item.
    pub retry_queue_item : Text → Files Job → Option (Files Job)
    unfolding take_dead requeued
    retry_queue_item id f = requeued (take_dead id f.dead) f
