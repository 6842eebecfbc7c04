-- ===== src/Media/Tests.antt =====
-- internal/media/merge.go: a merge of two files whose second download ends first.
use live_transcript_server.Prelude.{
  ◌==◌, if◌then◌else◌, ◌*◌, ◌+◌, ◌≤◌, ◌≡◌, refl, String, true, Option, none, some, List, [], ◌∷◌,
  ◌⊎◌,
}
use live_transcript_server.Storage.Keys.{raw_key}
use live_transcript_server.Media.Merge.{
  Bytes, Merge, Event, start, exhaust, deliver, check, append, finish, step, begin, is_idle,
}
use live_transcript_server.Media.Family.{total}
use live_transcript_server.Media.Invariant.{Reach, here, after}
use live_transcript_server.Media.Ordered.{on_disk, Gathered, merge-IsOrdered, merge-scratch}
use live_transcript_server.Media.Returns.{HasReturned, CanStep, merge-Returns}

abbrev two_files : List String
two_files = "a" ∷ "b" ∷ []

-- What the storage holds: one chunk by its key, and another for any other key.
abbrev stored : String → Option Bytes
stored key = if key == raw_key "ch" "s" "a" then some (1 ∷ 2 ∷ []) else some (3 ∷ [])

abbrev next : Event → Merge → Option Merge
next = step stored "ch" "s" two_files

abbrev or_same : Merge → Option Merge → Merge
or_same m none = m
or_same m (some m') = m'

abbrev then_do : Event → Merge → Merge
then_do e m = or_same m (next e m)

abbrev started : Merge
started = then_do start (then_do start (begin stored "ch" "s" two_files true))

abbrev delivered : Merge
delivered = then_do check (then_do (deliver 0) (then_do (deliver 1) started))

abbrev written : Merge
written = then_do append (then_do check (then_do append delivered))

abbrev done : Merge
done = then_do finish (then_do exhaust written)

done_reach : Reach stored "ch" "s" two_files true 10 done
unfolding step begin raw_key
done_reach =
    after finish
      (after exhaust
        (after append
          (after check
            (after append
              (after check
                (after (deliver 0)
                  (after (deliver 1) (after start (after start here refl) refl) refl) refl)
                refl)
              refl)
            refl)
          refl)
        refl)
      refl

merge-IsOrdered_example :
    (is_idle stored "ch" "s" two_files done ≡ true)
    × Gathered stored "ch" "s" two_files (some (1 ∷ 2 ∷ 3 ∷ []))
unfolding step begin raw_key
merge-IsOrdered_example =
    merge-IsOrdered stored "ch" "s" two_files done_reach (some (1 ∷ 2 ∷ 3 ∷ [])) refl

merge-scratch_example : total on_disk 2 done.chunks ≤ 32
merge-scratch_example = merge-scratch stored "ch" "s" two_files done_reach

merge-Returns_example :
    (10 ≤ 5 * 2 + 5) × (HasReturned done.stage ⊎ CanStep stored "ch" "s" two_files done)
merge-Returns_example = merge-Returns stored "ch" "s" two_files done_reach
