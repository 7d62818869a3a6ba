-- ===== src/Kernel/ProcessLifecycle.antt =====
-- src/kernel/process_lifecycle.h and src/kernel/process_lifecycle.cpp: ProcessLifecycleService. The
-- mutex makes each method one step; a vector lists what was pushed first at its head.
use kaj_ps.Base.{
  ℕ, suc, ◌+◌, ◌≤◌, ◌≡◌, ◌≢◌, ◌∙◌, refl, Bool, true, false, ◌||◌, Option, none, some, List, [], ◌∷◌,
  ◌++◌, arith, leb, ◌==◌, if◌then◌else◌, length, length-append,
}
use kaj_ps.Base.Int.{ℤ, pos, ltb_ℤ}
use kaj_ps.Kernel.Status.{KernelStatus, kernel_ok, invalid_argument, no_resources}

abbrev pub maximum_process_exit_callbacks : ℕ
maximum_process_exit_callbacks = 4096

pub record GuestProcessEnvironment : Type 0 where
  pub initialized : Bool
  pub argc : ℤ
  pub argv_address : ℕ
  pub envp_address : ℕ

pub record GuestCxaDestructor : Type 0 where
  pub function : ℕ
  pub argument : ℕ
  pub dso : ℕ

pub record GuestProcessExitRequest : Type 0 where
  pub requested : Bool
  pub status : ℤ

pub record ProcessLifecycle : Type 0 where
  pub environment : GuestProcessEnvironment
  pub atexit_callbacks : List ℕ
  pub cxa_destructors : List GuestCxaDestructor
  pub exit_request : GuestProcessExitRequest

abbrev pub no_environment : GuestProcessEnvironment
no_environment = record { initialized = false; argc = pos 0; argv_address = 0; envp_address = 0 }

unfoldable pub new_process : ProcessLifecycle
new_process = record {
  environment = no_environment;
  atexit_callbacks = [];
  cxa_destructors = [];
  exit_request = record { requested = false; status = pos 0 };
}

-- ResetEnvironment
unfoldable pub reset_environment : ProcessLifecycle → ProcessLifecycle
reset_environment p = record p { environment = no_environment }

-- InitializeEnvironment
unfoldable pub initialize_environment :
    ℤ → ℕ → ℕ → ProcessLifecycle → ProcessLifecycle × KernelStatus
initialize_environment argc argv envp p =
    if ltb_ℤ argc (pos 0) || (argv == 0) || (envp == 0) then (p, invalid_argument) else (
      record p {
        environment = record {
          initialized = true;
          argc = argc;
          argv_address = argv;
          envp_address = envp;
        };
      },
      kernel_ok,
    )

-- callback_count
unfoldable pub callback_count : ProcessLifecycle → ℕ
callback_count p = length p.atexit_callbacks + length p.cxa_destructors

-- RegisterAtexit
unfoldable pub register_atexit : ℕ → ProcessLifecycle → ProcessLifecycle × KernelStatus
register_atexit function p =
    if function == 0
    then (p, kernel_ok)
    else if leb maximum_process_exit_callbacks (callback_count p)
    then (p, no_resources)
    else (record p { atexit_callbacks = p.atexit_callbacks ++ (function ∷ []) }, kernel_ok)

-- RegisterCxaDestructor
unfoldable pub register_cxa_destructor :
    GuestCxaDestructor → ProcessLifecycle → ProcessLifecycle × KernelStatus
register_cxa_destructor d p =
    if d.function == 0
    then (p, kernel_ok)
    else if leb maximum_process_exit_callbacks (callback_count p)
    then (p, no_resources)
    else (record p { cxa_destructors = p.cxa_destructors ++ (d ∷ []) }, kernel_ok)

-- From rbegin to rend.
backward {ℓ} : {A : Type ℓ} → List A → List A
backward [] = []
backward (x ∷ xs) = backward xs ++ (x ∷ [])

-- PendingAtexitCallbacks
unfoldable pub pending_atexit_callbacks : ProcessLifecycle → List ℕ
unfolding backward
pending_atexit_callbacks p = backward p.atexit_callbacks

abbrev pub is_wanted : Option ℕ → GuestCxaDestructor → Bool
is_wanted none d = true
is_wanted (some wanted) d = d.dso == wanted

-- The loop of PendingCxaDestructors.
unfoldable pub wanted_of : Option ℕ → List GuestCxaDestructor → List GuestCxaDestructor
wanted_of wanted [] = []
wanted_of wanted (d ∷ ds) =
    let rest = wanted_of wanted ds in if is_wanted wanted d then d ∷ rest else rest

-- PendingCxaDestructors
unfoldable pub pending_cxa_destructors : Option ℕ → ProcessLifecycle → List GuestCxaDestructor
unfolding backward
pending_cxa_destructors wanted p = wanted_of wanted (backward p.cxa_destructors)

-- RequestExit
unfoldable pub request_exit : ℤ → ProcessLifecycle → ProcessLifecycle
request_exit status p =
    if p.exit_request.requested
    then p
    else record p { exit_request = record { requested = true; status = status } }

backward-append {ℓ} :
    {A : Type ℓ} (xs : List A) (x : A) → backward (xs ++ (x ∷ [])) ≡ x ∷ backward xs
unfolding backward
backward-append [] x = refl
backward-append (y ∷ xs) x = rw (backward-append xs x) refl

-- Below the limit of callbacks, a callback that is registered becomes the first of the pending ones,
-- in front of all others in their order: the last registered runs first. The destructors are kept.
pub register_atexit_lifo :
    (function : ℕ) (p : ProcessLifecycle)
    → function ≢ 0
    → suc (callback_count p) ≤ maximum_process_exit_callbacks
    → let (p', status) = register_atexit function p in
      (status ≡ kernel_ok)
      × (pending_atexit_callbacks p' ≡ function ∷ pending_atexit_callbacks p)
      × (p'.cxa_destructors ≡ p.cxa_destructors)
unfolding register_atexit pending_atexit_callbacks
register_atexit_lifo function p filled room =
    let named : (function == 0) ≡ false = ground (arith, filled) in
    let open_place : leb maximum_process_exit_callbacks (callback_count p) ≡ false =
      ground (arith, room) in
    rw (named, open_place) (refl, backward-append p.atexit_callbacks function, refl)

-- Below the limit of callbacks, a destructor that is registered becomes the first of those that are
-- pending for its module and for all modules, and the ones pending for another module stay the same.
pub register_cxa_destructor_lifo :
    (wanted : Option ℕ) (d : GuestCxaDestructor) (p : ProcessLifecycle)
    → d.function ≢ 0
    → suc (callback_count p) ≤ maximum_process_exit_callbacks
    → let (p', status) = register_cxa_destructor d p in
      (status ≡ kernel_ok)
      × (pending_cxa_destructors wanted p' ≡ (
          if is_wanted wanted d
          then d ∷ pending_cxa_destructors wanted p
          else pending_cxa_destructors wanted p))
unfolding register_cxa_destructor pending_cxa_destructors
register_cxa_destructor_lifo wanted d p filled room =
    let named : (d.function == 0) ≡ false = ground (arith, filled) in
    let open_place : leb maximum_process_exit_callbacks (callback_count p) ≡ false =
      ground (arith, room) in
    rw (named, open_place, backward-append p.cxa_destructors d) (refl, unfold wanted_of in refl)

pub data LifecycleCall : Type 0 where
  resets : LifecycleCall
  initializes : ℤ → (argv envp : ℕ) → LifecycleCall
  registers_atexit : ℕ → LifecycleCall
  registers_cxa : GuestCxaDestructor → LifecycleCall
  exits : ℤ → LifecycleCall

unfoldable pub call : LifecycleCall → ProcessLifecycle → ProcessLifecycle
call resets p = reset_environment p
call (initializes argc argv envp) p = (initialize_environment argc argv envp p).0
call (registers_atexit function) p = (register_atexit function p).0
call (registers_cxa d) p = (register_cxa_destructor d p).0
call (exits status) p = request_exit status p

unfoldable pub calls : List LifecycleCall → ProcessLifecycle → ProcessLifecycle
calls [] p = p
calls (c ∷ cs) p = calls cs (call c p)

call-callback_count :
    (c : LifecycleCall) (p : ProcessLifecycle)
    → callback_count p ≤ maximum_process_exit_callbacks
    → callback_count (call c p) ≤ maximum_process_exit_callbacks
unfolding call callback_count reset_environment initialize_environment register_atexit
    register_cxa_destructor request_exit
call-callback_count resets p h = h
call-callback_count (initializes argc argv envp) p h = ground (arith, h)
call-callback_count (registers_atexit function) p h =
    ground (arith, h, length-append p.atexit_callbacks (function ∷ []))
call-callback_count (registers_cxa d) p h =
    ground (arith, h, length-append p.cxa_destructors (d ∷ []))
call-callback_count (exits status) p h = ground (arith, h)

call-exit_request :
    (c : LifecycleCall) (p : ProcessLifecycle)
    → p.exit_request.requested ≡ true
    → (call c p).exit_request ≡ p.exit_request
unfolding call reset_environment initialize_environment register_atexit register_cxa_destructor
    request_exit
call-exit_request resets p h = refl
call-exit_request (initializes argc argv envp) p h = ground arith
call-exit_request (registers_atexit function) p h = ground arith
call-exit_request (registers_cxa d) p h = ground arith
call-exit_request (exits status) p h = rw h refl

calls-exit_request :
    (cs : List LifecycleCall) (p : ProcessLifecycle)
    → p.exit_request.requested ≡ true
    → (calls cs p).exit_request ≡ p.exit_request
unfolding calls
calls-exit_request [] p h = refl
calls-exit_request (c ∷ cs) p h =
    let step = call-exit_request c p h in calls-exit_request cs (call c p) (cc (step, h)) ∙ step

-- The first request to exit counts: from a process of which no exit was requested, after RequestExit
-- and whatever calls follow it, the exit request still has that status.
pub first_exit_counts :
    (status : ℤ) (cs : List LifecycleCall) (p : ProcessLifecycle)
    → p.exit_request.requested ≡ false
    → (calls cs (call (exits status) p)).exit_request ≡ record { requested = true; status = status }
unfolding call request_exit
first_exit_counts status cs p h =
    let first : (call (exits status) p).exit_request
        ≡ record { requested = true; status = status } =
      rw (h, request_exit) refl in
    calls-exit_request cs (call (exits status) p) (rw (h, request_exit) refl) ∙ first

bounded :
    (cs : List LifecycleCall) (p : ProcessLifecycle)
    → callback_count p ≤ maximum_process_exit_callbacks
    → callback_count (calls cs p) ≤ maximum_process_exit_callbacks
unfolding calls
bounded [] p h = h
bounded (c ∷ cs) p h = bounded cs (call c p) (call-callback_count c p h)

-- No sequence of calls on a new process registers more than the maximum number of callbacks.
pub calls-callback_count :
    (cs : List LifecycleCall)
    → callback_count (calls cs new_process) ≤ maximum_process_exit_callbacks
calls-callback_count cs = bounded cs new_process (unfold callback_count new_process in omega arith)
