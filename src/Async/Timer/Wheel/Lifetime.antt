-- ===== src/Async/Timer/Wheel/Lifetime.antt =====
-- The whole life of one timer of src/async/timer.hpp, while others are scheduled, cancelled and fire.
use rain.Base.{
  ℕ, ◌+◌, ◌-◌, ◌%◌, ◌≡◌, refl, ap, ap₂, ◌≤◌, ◌<◌, ◌≢◌, ◌⊎◌, inl, inr, arith, Option, none, some,
  ==_refl, ne→==,
}
use rain.Async.Concepts.{States, Done, WaitState}
use rain.Async.Timer.Slotmap.{TimerEntry, Entries, lookup, acquire, id_index}
use rain.Async.Timer.Slotmap.Inv.{IsSound, HasRoom, acquire-IsSound, release-IsSound, cancel_lem}
use rain.Async.Timer.Slotmap.Lookup.{
  IsIssued, IsLater, acquire-IsLater, release-IsLater, acquire-fresh, acquire-issues,
  lookup-acquire, lookup-release, lookup-later,
}
use rain.Async.Timer.Wheel.{
  Wheel, route, schedule_at, cancel_timer, tick, ticks_between, timer_entry,
}
use rain.Async.Timer.Wheel.History.{
  entries-schedule_at, entries-cancel_timer, place-SameFrame, same, tick-IsSound, tick-IsLater,
}
use rain.Async.Timer.Wheel.Hands.{InPhase, tick-InPhase}
use rain.Async.Timer.Wheel.Location.{routed, count-place}
use rain.Async.Timer.Wheel.Positions.{route-IsDue}
use rain.Async.Timer.Wheel.OnTime.{IsWaiting, tick-IsWaiting, aim_at}
use rain.Async.Timer.Wheel.Issued.{OnlyIssued, IsNowhere, tick-OnlyIssued, schedule_at-OnlyIssued}

-- A wheel in order after `n` ticks.
pub record IsRunning (n : ℕ) (w : Wheel) : Type 0 where
  pub sound : IsSound w.entries
  pub phase : InPhase n w
  pub issued : OnlyIssued w

-- What may happen around the timer `id`, from the wheel `w` after `n` ticks to another after more.
pub data Run (id n : ℕ) (w : Wheel) : ℕ → Wheel → Type 0 where
  start : Run id n w n w
  ticked :
      {m k : ℕ} {v : Wheel} (done : Done) (states : States)
      → k ≡ m + 1
      → Run id n w m v
      → Run id n w k (tick done states v).wheel
  scheduled :
      {m : ℕ} {v : Wheel} (deadline : ℕ) (handle state : Option ℕ) (completion : WaitState)
      → HasRoom v.entries
      → Run id n w m v
      → Run id n w m (schedule_at deadline handle state completion v).1
  cancelled :
      {m : ℕ} {v : Wheel} (other : ℕ)
      → other ≢ id
      → Run id n w m v
      → Run id n w m (cancel_timer other v).1

schedule_at-InPhase :
    (n deadline : ℕ) (handle state : Option ℕ) (completion : WaitState) (w : Wheel)
    → InPhase n w
    → InPhase n (schedule_at deadline handle state completion w).1
unfolding schedule_at
schedule_at-InPhase n deadline handle state completion w p =
    let make = timer_entry deadline handle state completion in
    let w' : Wheel = record w { entries = (acquire w.entries make).1 } in
    let f = place-SameFrame (acquire w.entries make).0 deadline {v = w'} w' (same w') in
    ground (
      arith,
      p.time,
      p.hand0,
      p.hand1,
      p.hand2,
      p.hand3,
      p.size0,
      p.size1,
      p.size2,
      p.size3,
      f.start,
      f.now,
      f.hands 0,
      f.hands 1,
      f.hands 2,
      f.hands 3,
      f.sizes 0,
      f.sizes 1,
      f.sizes 2,
      f.sizes 3,
    )

schedule_at-IsRunning :
    (n deadline : ℕ) (handle state : Option ℕ) (completion : WaitState) (w : Wheel)
    → HasRoom w.entries
    → IsRunning n w
    → IsRunning n (schedule_at deadline handle state completion w).1
schedule_at-IsRunning n deadline handle state completion w r i = record {
  sound =
      rw (entries-schedule_at deadline handle state completion w)
        (acquire-IsSound w.entries _ (λ id. refl) r i.sound);
  phase = schedule_at-InPhase n deadline handle state completion w i.phase;
  issued = schedule_at-OnlyIssued deadline handle state completion w r i.sound i.issued;
}

cancel_timer-IsRunning : (n id : ℕ) (w : Wheel) → IsRunning n w → IsRunning n (cancel_timer id w).1
unfolding cancel_timer
cancel_timer-IsRunning n id w i = record {
  sound = rw (entries-cancel_timer id w) (release-IsSound id w.entries i.sound);
  phase = let p = i.phase in omega arith;
  issued = λ j. elim (i.issued j) [
    | inl nowhere ↦ inl nowhere
    | inr issued ↦ inr (
        rw (ap (λ r. r.1) (cancel_lem id w.entries))
          (omega (arith, issued, (release-IsLater id w.entries).grows (id_index j))))
  ];
}

tick-IsRunning :
    (done : Done) (states : States) (n : ℕ) (w : Wheel)
    → IsRunning n w
    → IsRunning (n + 1) (tick done states w).wheel
tick-IsRunning done states n w i = record {
  sound = tick-IsSound done states w i.sound;
  phase = tick-InPhase done states n w i.phase;
  issued = tick-OnlyIssued done states w i.sound (tick-IsLater done states w i.sound) i.issued;
}

-- Another timer is scheduled, or cancelled: this one waits on.
schedule_at-IsWaiting :
    (n d id deadline : ℕ) (entry : TimerEntry) (handle state : Option ℕ) (completion : WaitState)
    (w : Wheel)
    → HasRoom w.entries
    → IsRunning n w
    → IsWaiting id entry n d w
    → IsWaiting id entry n d (schedule_at deadline handle state completion w).1
unfolding schedule_at
schedule_at-IsWaiting n d id deadline entry handle state completion w r i wt =
    let make = timer_entry deadline handle state completion in
    let new = (acquire w.entries make).0 in
    let w' : Wheel = record w { entries = (acquire w.entries make).1 } in
    let f = place-SameFrame new deadline {v = w'} w' (same w') in
    let ne : new ≢ id =
      λ eq. cc (ap (lookup w.entries) eq, acquire-fresh w.entries make r i.sound, wt.found) in
    record {
      found = rw (f.entries, lookup-acquire w.entries make id r i.sound, ne→== new id ne) wt.found;
      tick_of = rw f.start wt.tick_of;
      place_of = wt.place_of;
      due = wt.due;
      at = λ l s. ground (arith, count-place id new deadline w' l s, wt.at l s);
    }

cancel_timer-IsWaiting :
    (n d id other : ℕ) (entry : TimerEntry) (w : Wheel)
    → other ≢ id
    → IsWaiting id entry n d w
    → IsWaiting id entry n d (cancel_timer other w).1
unfolding cancel_timer
cancel_timer-IsWaiting n d id other entry w ne wt = record {
  found =
      rw
        (
          ap (λ r. r.1) (cancel_lem other w.entries),
          lookup-release w.entries other id,
          ne→== other id ne,
        )
        wt.found;
  tick_of = wt.tick_of;
  place_of = wt.place_of;
  due = wt.due;
  at = wt.at;
}

-- The fate of a timer: it waits for tick `d`, or that tick has passed and it is no longer valid.
abbrev pub Fate : ℕ → TimerEntry → ℕ → ℕ → Wheel → Type 0
Fate id entry d m v =
    ((m ≤ d) × IsWaiting id entry m d v)
    ⊎ ((d < m) × (lookup v.entries id ≡ none) × IsIssued id v.entries)

later-gone :
    (id : ℕ) {e e' : Entries}
    → IsSound e
    → IsLater e e'
    → (lookup e id ≡ none) × IsIssued id e
    → (lookup e' id ≡ none) × IsIssued id e'
later-gone id s l g = (lookup-later id s l g.1 g.0, omega (arith, g.1, l.grows (id_index id)))

-- Of an entry that is found the id was handed out.
found-IsIssued :
    (id : ℕ) (entry : TimerEntry) (e : Entries) → lookup e id ≡ some entry → IsIssued id e
unfolding lookup
found-IsIssued id entry e h = ground arith

Run-Fate :
    (id n d : ℕ) (entry : TimerEntry) {w : Wheel} {m : ℕ} {v : Wheel}
    → IsRunning n w
    → Fate id entry d n w
    → Run id n w m v
    → IsRunning m v × Fate id entry d m v
Run-Fate id n d entry i f start = (i, f)
Run-Fate id n d entry i f (ticked {m} {k} {v} done states e r) =
    let (i', f') = Run-Fate id n d entry i f r in
    let later = tick-IsLater done states v i'.sound in
    (
      rw e (tick-IsRunning done states m v i'),
      elim f' [
        | inl (le, wt) ↦ elim (tick-IsWaiting done states m d id entry v le i'.phase wt) [
          | inl (now, gone) ↦ inr (
            omega arith,
            gone,
            omega (arith, found-IsIssued id entry v.entries wt.found, later.grows (id_index id)),
          )
          | inr (lt, wt') ↦ inl (omega arith, rw e wt')
        ]
        | inr (lt, gone, issued) ↦
            let (gone', issued') = later-gone id i'.sound later (gone, issued) in
            inr (omega arith, gone', issued')
      ],
    )
Run-Fate id n d entry i f (scheduled {m} {v} deadline handle state completion room r) =
    let (i', f') = Run-Fate id n d entry i f r in
    (
      schedule_at-IsRunning m deadline handle state completion v room i',
      elim f' [
        | inl (le, wt) ↦
            inl
              (le, schedule_at-IsWaiting m d id deadline entry handle state completion v room i' wt)
        | inr (lt, gone, issued) ↦
            let later =
              acquire-IsLater v.entries (timer_entry deadline handle state completion) room
                i'.sound in
            let (gone', issued') = later-gone id i'.sound later (gone, issued) in
            inr (
              lt,
              rw (entries-schedule_at deadline handle state completion v) gone',
              rw (entries-schedule_at deadline handle state completion v) issued',
            )
      ],
    )
Run-Fate id n d entry i f (cancelled {m} {v} other ne r) =
    let (i', f') = Run-Fate id n d entry i f r in
    (
      cancel_timer-IsRunning m other v i',
      elim f' [
        | inl (le, wt) ↦ inl (le, cancel_timer-IsWaiting m d id other entry v ne wt)
        | inr (lt, gone, issued) ↦
            let later = release-IsLater other v.entries in
            let (gone', issued') = later-gone id i'.sound later (gone, issued) in
            inr (
              lt,
              rw (entries-cancel_timer other v) gone',
              rw (entries-cancel_timer other v) issued',
            )
      ],
    )

-- A scheduled timer waits from the start.
schedule_at-waits :
    (n d deadline : ℕ) (handle state : Option ℕ) (completion : WaitState) (w : Wheel)
    → HasRoom w.entries
    → IsRunning n w
    → ticks_between w.start_time deadline ≡ d
    → n ≤ d
    → (d < n + 16384) ⊎ (d % 16384 ≢ 256)
    → let (id, w') = schedule_at deadline handle state completion w in
      IsWaiting id (timer_entry deadline handle state completion id) n d w'
unfolding schedule_at
schedule_at-waits n d deadline handle state completion w r i t le k =
    let make = timer_entry deadline handle state completion in
    let id = (acquire w.entries make).0 in
    let w' : Wheel = record w { entries = (acquire w.entries make).1 } in
    let f = place-SameFrame id deadline {v = w'} w' (same w') in
    let target : routed w' deadline ≡ route (d - n) d =
      ap₂ route (rw i.phase.time (aim_at n d deadline w.start_time t)) t in
    let unborn = (acquire-issues w.entries make r i.sound).0 in
    let nowhere : IsNowhere id w = elim (i.issued id) [
      | inl h ↦ h
      | inr issued ↦ absurd (unborn issued)
    ] in
    record {
      found = rw (f.entries, lookup-acquire w.entries make id r i.sound, ==_refl id) refl;
      tick_of = rw f.start t;
      place_of = route (d - n) d;
      due = route-IsDue n d le k;
      at = λ l s.
          rw (count-place id id deadline w' l s, ==_refl id, target, nowhere l s) (omega arith);
    }

-- A timer that is scheduled for tick `d`, now or later, and is not cancelled: until tick `d` has passed it
-- is found with its entry, whatever other timers are scheduled, cancelled or fire; afterwards it is no
-- longer valid. Excepted are deadlines more than 16383 ticks ahead that fall 256 ticks into a round of
-- level 2.
pub fires_on_time :
    (n d m deadline : ℕ) (handle state : Option ℕ) (completion : WaitState) (w v : Wheel)
    → HasRoom w.entries
    → IsRunning n w
    → ticks_between w.start_time deadline ≡ d
    → n ≤ d
    → (d < n + 16384) ⊎ (d % 16384 ≢ 256)
    → Run
        (schedule_at deadline handle state completion w).0
        n
        (schedule_at deadline handle state completion w).1
        m
        v
    → let id = (schedule_at deadline handle state completion w).0 in
      ((m ≤ d) × (lookup v.entries id ≡ some (timer_entry deadline handle state completion id)))
      ⊎ ((d < m) × (lookup v.entries id ≡ none))
fires_on_time n d m deadline handle state completion w v r i t le k run =
    let started = schedule_at-waits n d deadline handle state completion w r i t le k in
    let (i', fate) =
      Run-Fate _ n d _ (schedule_at-IsRunning n deadline handle state completion w r i)
        (inl (le, started)) run in
    elim fate [
      | inl (before, wt) ↦ inl (before, wt.found)
      | inr (past, gone, issued) ↦ inr (past, gone)
    ]
