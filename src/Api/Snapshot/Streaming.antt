-- ===== src/Api/Snapshot/Streaming.antt =====
-- api/server.go: a client of the event stream gets each snapshot once, and is never left behind.
use mathlib.Core.List.{append-nil}
use mathlib.Core.Path.{subst}
use forensic_listener.Prelude.{
  ap, ℕ, ◌≤◌, ◌<◌, ◌≡◌, refl, sym, true, false, Option, none, some, List, [], ◌∷◌, ◌++◌, arith,
  ◌==◌, All, Any, Bool-cases, inl, inr, ◌⊎◌,
}
use forensic_listener.Api.Snapshot.{
  SnapshotHub, Wake, gone, changed, heartbeat, Frame, snapshot, keep_alive, is_news, news_in,
  sent_now, last_after, event_stream,
}

-- The snapshots among the frames, by their serial numbers.
abbrev pub snapshots_of : List Frame → List ℕ
snapshots_of [] = []
snapshots_of (snapshot n ∷ fs) = n ∷ snapshots_of fs
snapshots_of (keep_alive ∷ fs) = snapshots_of fs

abbrev pub IsAfter : Option ℕ → ℕ → Type 0
IsAfter none n = Unit
IsAfter (some m) n = m < n

-- Each is later than the one before it, and the first than the last one sent.
abbrev pub IsIncreasing : Option ℕ → List ℕ → Type 0
IsIncreasing last [] = Unit
IsIncreasing last (n ∷ ns) = IsAfter last n × IsIncreasing (some n) ns

abbrev IsUpTo : Option ℕ → ℕ → Type 0
IsUpTo none n = Unit
IsUpTo (some m) n = m ≤ n

snapshots-append :
    (fs gs : List Frame) → snapshots_of (fs ++ gs) ≡ snapshots_of fs ++ snapshots_of gs
snapshots-append [] gs = refl
snapshots-append (snapshot n ∷ fs) gs = ap (λ t. n ∷ t) (snapshots-append fs gs)
snapshots-append (keep_alive ∷ fs) gs = snapshots-append fs gs

module _ {S : Type 0} where
  -- The hubs come in the order of their publishes.
  abbrev pub IsTimeline : SnapshotHub S → List (Wake × SnapshotHub S) → Type 0
  IsTimeline hub [] = Unit
  IsTimeline hub ((_, next) ∷ more) = (hub.serial ≤ next.serial) × IsTimeline next more

  -- The hubs that the loop reads.
  abbrev pub hubs_read : SnapshotHub S → List (Wake × SnapshotHub S) → List (SnapshotHub S)
  hubs_read hub [] = hub ∷ []
  hubs_read hub ((gone, next) ∷ more) = hub ∷ []
  hubs_read hub ((changed, next) ∷ more) = hub ∷ hubs_read next more
  hubs_read hub ((heartbeat, next) ∷ more) = hub ∷ hubs_read next more

  -- There is no snapshot yet, or it is the last one sent, or it is among these.
  abbrev pub IsServed : Option ℕ → List ℕ → SnapshotHub S → Type 0
  IsServed last sent hub =
      (hub.latest ≡ none) ⊎ ((last ≡ some hub.serial) ⊎ Any (λ n. n ≡ hub.serial) sent)

  news-cases :
      (latest : Option S) (serial : ℕ) (last : Option ℕ)
      → IsUpTo last serial
      → (news_in latest serial last ≡ true) × IsAfter last serial
        ⊎ (news_in latest serial last ≡ false) × ((latest ≡ none) ⊎ (last ≡ some serial))
  news-cases none serial last u = inr (refl, inl refl)
  news-cases (some s) serial none u = inl (refl, tt)
  news-cases (some s) serial (some m) u = elim (Bool-cases (m == serial)) [
    | inl e ↦ let q : m ≡ serial = ground arith in inr (rw e refl, inr (ap some q))
    | inr e ↦ inl (rw e refl, ground arith)
  ]

  -- What is served by later frames counts for the whole, after this hub's own.
  IsServed-later :
      (hub : SnapshotHub S) (last : Option ℕ) (later : List ℕ) (hubs : List (SnapshotHub S))
      → IsUpTo last hub.serial
      → All (IsServed (last_after hub last) later) hubs
      → All (IsServed last (snapshots_of (sent_now hub last) ++ later)) hubs
  IsServed-later hub last later hubs u h = elim (news-cases hub.latest hub.serial last u) [
    | inl (e, _) ↦ rw e (sent hubs (rw e at h))
    | inr (e, _) ↦ rw e (rw e at h)
  ]
    where
      sent :
          (ks : List (SnapshotHub S))
          → All (IsServed (some hub.serial) later) ks
          → All (IsServed last (hub.serial ∷ later)) ks
      sent [] g = tt
      sent (k ∷ ks) g = (
        elim (g.0) [
          | inl nothing ↦ inl nothing
          | inr (inl same) ↦ inr (inr (inl (let q : hub.serial ≡ k.serial = cc in q)))
          | inr (inr there) ↦ inr (inr (inr there))
        ],
        sent ks g.1,
      )

  IsServed-now :
      (hub : SnapshotHub S) (last : Option ℕ) (later : List ℕ)
      → IsUpTo last hub.serial
      → IsServed last (snapshots_of (sent_now hub last) ++ later) hub
  IsServed-now hub last later u = elim (news-cases hub.latest hub.serial last u) [
    | inl (e, _) ↦ rw e (inr (inr (inl refl)))
    | inr (e, inl nothing) ↦ inl nothing
    | inr (e, inr same) ↦ inr (inl same)
  ]

  IsIncreasing-now :
      (hub : SnapshotHub S) (last : Option ℕ) (later : List ℕ)
      → IsUpTo last hub.serial
      → IsIncreasing (last_after hub last) later
      → IsIncreasing last (snapshots_of (sent_now hub last) ++ later)
  IsIncreasing-now hub last later u h = elim (news-cases hub.latest hub.serial last u) [
    | inl (e, after) ↦ rw e (after, rw e at h)
    | inr (e, _) ↦ rw e (rw e at h)
  ]

  IsUpTo-next :
      (hub : SnapshotHub S) (last : Option ℕ) (n : ℕ)
      → IsUpTo last hub.serial
      → hub.serial ≤ n
      → IsUpTo (last_after hub last) n
  IsUpTo-next hub last n u h = elim (Bool-cases (is_news hub last)) [
    | inl e ↦ rw e h
    | inr e ↦ rw e (trans_up last u)
  ]
    where
      trans_up : (l : Option ℕ) → IsUpTo l hub.serial → IsUpTo l n
      trans_up none v = tt
      trans_up (some m) v = omega arith

  abbrev Streams : Option ℕ → SnapshotHub S → List (Wake × SnapshotHub S) → List ℕ → Type 0
  Streams last hub wakes sent =
      IsIncreasing last sent × All (IsServed last sent) (hubs_read hub wakes)

  stream-step :
      (hub : SnapshotHub S) (last : Option ℕ) (fs : List Frame) (hubs : List (SnapshotHub S))
      → IsUpTo last hub.serial
      → IsIncreasing (last_after hub last) (snapshots_of fs)
      → All (IsServed (last_after hub last) (snapshots_of fs)) hubs
      → IsIncreasing last (snapshots_of (sent_now hub last ++ fs))
        × All (IsServed last (snapshots_of (sent_now hub last ++ fs))) (hub ∷ hubs)
  stream-step hub last fs hubs u a b =
      subst (λ (l : List ℕ). IsIncreasing last l × All (IsServed last l) (hub ∷ hubs))
        (sym (snapshots-append (sent_now hub last) fs))
        (
          IsIncreasing-now hub last (snapshots_of fs) u a,
          (
            IsServed-now hub last (snapshots_of fs) u,
            IsServed-later hub last (snapshots_of fs) hubs u b,
          ),
        )

  stream-end :
      (hub : SnapshotHub S) (last : Option ℕ)
      → IsUpTo last hub.serial
      → IsIncreasing last (snapshots_of (sent_now hub last))
        × All (IsServed last (snapshots_of (sent_now hub last))) (hub ∷ [])
  stream-end hub last u = rw (← append-nil (sent_now hub last)) (stream-step hub last [] [] u tt tt)

  stream_lem :
      (last : Option ℕ) (hub : SnapshotHub S) (wakes : List (Wake × SnapshotHub S))
      → IsTimeline hub wakes
      → IsUpTo last hub.serial
      → Streams last hub wakes (snapshots_of (event_stream last hub wakes))
  unfolding event_stream
  stream_lem last hub [] t u = stream-end hub last u
  stream_lem last hub ((gone, next) ∷ more) t u = stream-end hub last u
  stream_lem last hub ((changed, next) ∷ more) t u =
      let (a, b) =
        stream_lem (last_after hub last) next more t.1 (IsUpTo-next hub last next.serial u t.0) in
      stream-step hub last _ (hubs_read next more) u a b
  stream_lem last hub ((heartbeat, next) ∷ more) t u =
      let (a, b) =
        stream_lem (last_after hub last) next more t.1 (IsUpTo-next hub last next.serial u t.0) in
      stream-step hub last (keep_alive ∷ event_stream (last_after hub last) next more)
        (hubs_read next more) u a b

  -- However publishes, heartbeats and the client's reads interleave, a client gets snapshots in the
  -- order of their publishes and none twice; and whenever the loop reads the hub, the latest snapshot, if
  -- there is one, is one that it sends.
  pub streams_once :
      (hub : SnapshotHub S) (wakes : List (Wake × SnapshotHub S))
      → IsTimeline hub wakes
      → IsIncreasing none (snapshots_of (event_stream none hub wakes))
        × All (IsServed none (snapshots_of (event_stream none hub wakes))) (hubs_read hub wakes)
  streams_once hub wakes t = stream_lem none hub wakes t tt
