-- ===== src/Scheduler/Queue/Retry.antt =====
-- `retry_queue_item` of src/mellowlang/agents/scheduling/drain.py.
use mellow_programming_langu.Prelude.{
  ◌+◌, ◌≡◌, refl, true, false, Option, none, some, List, [], ◌∷◌, arith, if_split,
}
use mellow_programming_langu.Text.{Text, text_eq}
use mellow_programming_langu.Scheduler.Queue.{
  Item, Files, World, append_log, now_iso, take_dead, revived, retry_queue_item, requeued,
  keep_first,
}
use mellow_programming_langu.Scheduler.Queue.Conserve.{count_id, weigh, count_id-last, weigh_id}

module _ {Job : Type 0} (w : World Job) where
  abbrev Took : Text → List (Item Job) → Option (Item Job × List (Item Job)) → Type 0
  Took id items none = count_id id items ≡ 0
  Took id items (some (item, others)) =
      (text_eq item.id id ≡ true)
      × ((i : Text) → count_id i items ≡ weigh i item + count_id i others)

  keep_first-Took :
      (id : Text) (item : Item Job) (items : List (Item Job))
      (r : Option (Item Job × List (Item Job)))
      → text_eq item.id id ≡ false
      → Took id items r
      → Took id (item ∷ items) (keep_first w item r)
  unfolding keep_first
  keep_first-Took id item items none ne h =
      let zero : weigh id item ≡ 0 = unfold weigh in rw ne refl in unfold count_id in omega arith
  keep_first-Took id item items (some (found, others)) ne (same, kept) =
      (same, λ i. unfold count_id in omega (arith, kept i))

  take_dead-Took : (id : Text) (items : List (Item Job)) → Took id items (take_dead w id items)
  unfolding take_dead
  take_dead-Took id [] = unfold count_id in refl
  take_dead-Took id (item ∷ items) =
      if_split (Took id (item ∷ items)) (text_eq item.id id)
        (λ e. (e, λ i. unfold count_id in refl))
        (λ e. keep_first-Took id item items (take_dead w id items) e (take_dead-Took id items))

  -- What a call answers, from the search in the dead letter.
  abbrev pub Requeued : Text → Files Job → Option (Files Job) → Type 0
  Requeued id f none = count_id id f.dead ≡ 0
  Requeued id f (some g) =
      (count_id id g.items ≡ count_id id f.items + 1)
      × ((i : Text)
          → count_id i g.items + count_id i g.dead ≡ count_id i f.items + count_id i f.dead)

  requeued_lem :
      (id : Text) (f : Files Job) (r : Option (Item Job × List (Item Job)))
      → Took id f.dead r
      → Requeued id f (requeued w r f)
  unfolding requeued append_log
  requeued_lem id f none h = h
  requeued_lem id f (some (item, others)) (same, kept) =
      let back = revived w item (now_iso w f) in
      let is_one : weigh id back ≡ 1 = unfold weigh in unfold revived in rw same refl in
      (
        omega (arith, count_id-last id f.items back),
        λ i.
            let e : weigh i back ≡ weigh i item = weigh_id i back item (unfold revived in refl) in
            omega (arith, count_id-last i f.items back, kept i),
      )

  -- Retrying an id of the dead letter puts one item with it back into the queue and keeps every id
  -- as often as it was in both together; a refusal says that the dead letter does not have the id.
  pub retry_queue_item_keeps : (id : Text) (f : Files Job) → Requeued id f (retry_queue_item w id f)
  unfolding retry_queue_item
  retry_queue_item_keeps id f = requeued_lem id f (take_dead w id f.dead) (take_dead-Took id f.dead)
