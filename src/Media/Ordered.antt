-- ===== src/Media/Ordered.antt =====
-- internal/media/merge.go: what a merge returns, and the disk space it uses meanwhile.
use live_transcript_server.Prelude.{
  ℕ, ◌≤◌, ◌≡◌, refl, ap, String, Bool, true, Option, none, some, List, [], ◌∷◌, arith, length, take,
  if◌then◌else◌,
}
use live_transcript_server.Media.Merge.{Bytes, Chunk, Merge, returned, is_idle}
use live_transcript_server.Media.Family.{total, total-interval}
use live_transcript_server.Media.Invariant.{flies, gather, Reach, Reach-IsSound}

take-length : (xs : List String) → take (length xs) xs ≡ xs
take-length [] = refl
take-length (x ∷ xs) = ap (λ ys. x ∷ ys) (take-length xs)

-- 1 for a chunk of which the scratch folder may hold a file.
abbrev pub on_disk : Chunk → ℕ
on_disk c = if flies c then 1 else 0

on_disk-le : (c : Chunk) → on_disk c ≤ 1
on_disk-le c = ground arith

module _ (stored : String → Option Bytes) (channel stream : String) (file_ids : List String) where
  abbrev pub Gathered : Option Bytes → Type 0
  Gathered none = Unit
  Gathered (some out) = gather stored channel stream file_ids ≡ some out

  module _ {made : Bool} {k : ℕ} {m : Merge}
      (r : Reach stored channel stream file_ids made k m) where
    -- Whatever the schedule, when downloads end or fail and when the caller cancels: once
    -- MergeRawAudio has returned, neither its producer nor a download is running, and a file that it
    -- returns has the raw files of all the IDs, in the order of the IDs.
    pub merge-IsOrdered :
        (o : Option Bytes)
        → m.stage ≡ returned o
        → (is_idle stored channel stream file_ids m ≡ true) × Gathered o
    merge-IsOrdered none h = ((Reach-IsSound stored channel stream file_ids r).rested none h, tt)
    merge-IsOrdered (some out) h =
        let v = Reach-IsSound stored channel stream file_ids r in
        let (p, q) = v.result out h in
        (v.rested (some out) h, rw (p) (rw (q, take-length) at v.ordered))

    -- Whatever the schedule: at no time more than 32 chunks have a file in the scratch folder,
    -- however many files are merged.
    pub merge-scratch : total on_disk (length file_ids) m.chunks ≤ 32
    merge-scratch =
        let v = Reach-IsSound stored channel stream file_ids r in
        let (p, q) =
          total-interval on_disk (length file_ids) m.chunks m.appended m.started on_disk-le
            (λ i h. rw (v.taken i h) refl) (λ i h. rw (v.rest i h) refl) v.behind in
        omega (arith, v.counted, v.few)
