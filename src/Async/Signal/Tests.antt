-- ===== src/Async/Signal/Tests.antt =====
-- Tests of the signals, and the properties at concrete inputs.
use rain.Base.{ℕ, ◌+◌, ◌-◌, ◌≡◌, refl, ◌⊎◌, false, ℤ, pos, negsuc, List, [], ◌∷◌, ◌++◌, none, some}
use rain.Core.{returned, Errno, SystemError, ok, err, closes, one_at}
use rain.Async.Concepts.{WaitState}
use rain.Async.Reactor.Slots.{World, make_reactor}
use rain.Async.Timer.Wheel.{make_wheel}
use rain.Async.Loop.{Loop}
use rain.Async.Signal.{
  SignalSystem, SignalSet, SignalLoop, How, RawInfo, info, mask_for, add_signals, drop_signals,
  create_set, close_set, thread_of, from_raw_info, read_signal,
}
use rain.Async.Signal.Restored.{Documented, add_signals_lem, add_signals_again}

-- A system whose state is the mask of the thread and whether descriptor 7 is open.
abbrev Thread : Type 0
Thread = List ℤ × ℕ

abbrev change_mask : How → List ℤ → Thread → ℤ × List ℤ × Thread
change_mask How.sig_block m (old, n) = (pos 0, old, (m ++ old, n))
change_mask How.sig_setmask m (old, n) = (pos 0, old, (m, n))

abbrev child_stopped : RawInfo
child_stopped = record { ssi_signo = 17; ssi_pid = 4711; ssi_uid = 4_294_967_295 }

abbrev signals_on : SignalSystem Thread (List ℤ)
signals_on = record {
  sigemptyset = [];
  sigaddset = λ s m. s ∷ m;
  pthread_sigmask = change_mask;
  signalfd = λ m (old, n). (returned 7, (old, n + 1));
  read_info = λ fd k. (info 128 child_stopped, k);
  close_signalfd = λ fd (old, n). (returned 0, (old, n - closes 7 fd));
  last_errno = λ k. Errno.eagain;
}

sigmask_counts_here : (how : How) (m : List ℤ) (k : Thread) → (change_mask how m k).2.1 ≡ k.1
sigmask_counts_here How.sig_block m (old, n) = refl
sigmask_counts_here How.sig_setmask m (old, n) = refl

signals_on-Documented : Documented signals_on (λ k. k.0) (λ m old. m ++ old) 7 (λ k. k.1)
unfolding one_at
signals_on-Documented = record {
  block_answers = λ m k. refl;
  block_found = λ m k. refl;
  block_mask = λ m k. refl;
  set_mask = λ m k. refl;
  sigmask_counts = sigmask_counts_here;
  signalfd_mask = λ m k. refl;
  signalfd_counts = λ m k. refl;
  close_counts = λ fd k. refl;
}

abbrev start : Thread
start = (pos 1 ∷ [], 0)

abbrev world_here : World Thread
world_here = record {
  reactor = make_reactor (pos 3);
  states = λ a. WaitState.pending;
  results = λ a. ok 0;
  kernel = start;
}

abbrev idle : Loop Thread
idle = record {
  core = record { world = world_here; wheel = make_wheel 0 };
  owned_tasks = [];
  ready_queue = [];
  stop_requested = false;
  graceful_requested = false;
  served = [];
  cross_core_fd = pos 4;
  cross_core_queue = [];
  done = λ h. false;
}

abbrev no_signals : SignalLoop Thread (List ℤ)
no_signals = record { loop = idle; signals = none }

abbrev stop_signals : List ℤ
stop_signals = pos 2 ∷ pos 15 ∷ []

abbrev user_signal : List ℤ
user_signal = pos 10 ∷ []

add_signals_lem_example :
    let (r, m) = add_signals signals_on stop_signals no_signals in
    ((e : SystemError) × (r ≡ err e)
      × (m.signals ≡ none)
      × ((thread_of m).0 ≡ start.0)
      × ((thread_of m).1 ≡ start.1))
    ⊎ ((s : SignalSet (List ℤ)) × (r ≡ ok tt)
        × (m.signals ≡ some s)
        × (s.mask ≡ mask_for signals_on stop_signals)
        × ((thread_of m).0 ≡ mask_for signals_on stop_signals ++ start.0)
        × ((thread_of m).1 ≡ start.1 + closes 7 s.fd)
        × ((drop_signals signals_on m.signals (thread_of m)).0 ≡ start.0)
        × ((drop_signals signals_on m.signals (thread_of m)).1 ≡ start.1))
add_signals_lem_example =
    add_signals_lem signals_on (λ k. k.0) (λ m old. m ++ old) 7 (λ k. k.1) signals_on-Documented
      stop_signals no_signals refl

-- SIGUSR1 is wanted after SIGINT and SIGTERM: nothing of these is blocked then.
add_signals_again_example :
    let m = (add_signals signals_on stop_signals no_signals).1 in
    let n = (add_signals signals_on user_signal m).1 in
    (s : SignalSet (List ℤ)) × (n.signals ≡ some s)
    × (s.mask ≡ mask_for signals_on user_signal)
    × ((thread_of n).0 ≡ start.0)
    × ((drop_signals signals_on n.signals (thread_of n)).0
        ≡ mask_for signals_on stop_signals ++ start.0)
unfolding add_signals drop_signals create_set close_set
add_signals_again_example =
    add_signals_again signals_on (λ k. k.0) (λ m old. m ++ old) 7 (λ k. k.1) signals_on-Documented
      stop_signals user_signal no_signals refl refl refl

abbrev a_set : SignalSet (List ℤ)
a_set = record { fd = pos 7; mask = stop_signals; old_mask = [] }

-- A number of 32 bits from 2 ^ 31 on is read as a negative one.
a_signal :
    (read_signal signals_on a_set start).0
    ≡ ok (record { signo = pos 17; pid = pos 4711; uid = negsuc 0 })
unfolding read_signal from_raw_info
a_signal = refl
