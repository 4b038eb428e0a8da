-- ===== src/Os/Daemon.antt =====
-- `Daemonize` of src/lingx/core/daemon.cc. What the system calls return is an argument; a process has
-- its number, the copy of it in the global `Pid`, and the file behind each descriptor.
use lingx.Base.{
  ℕ, ◌<◌, ◌≡◌, refl, inl, inr, Bool, true, not, Option, none, some, arith, ltb, ◌==◌, if◌then◌else◌,
  Bool-cases, if_cases,
}

-- What fork() returns: an error, in the child its number, in the parent.
pub data Forked : Type 0 where
  fork_failed : Forked
  in_child : ℕ → Forked
  in_parent : Forked

pub record SystemCalls : Type 0 where
  pub fork : Forked
  pub setsid : Bool
  pub open_null : Option ℕ
  pub dup_stdin : Bool
  pub dup_stdout : Bool
  pub close : Bool

pub record Proc : Type 0 where
  pub self : ℕ
  pub pid : ℕ
  pub files : ℕ → Option ℕ

-- OK, ERROR, or the parent, which exits with 0.
pub data Daemon : Type 0 where
  is_daemon : Proc → Daemon
  daemon_error : Proc → Daemon
  parent_exit : Daemon

abbrev pub redirect : ℕ → ℕ → Proc → Proc
redirect fd at_ p = record p { files = λ d. if d == at_ then p.files fd else p.files d }

abbrev pub set_file : ℕ → Option ℕ → Proc → Proc
set_file fd file p = record p { files = λ d. if d == fd then file else p.files d }

-- From the open() of `/dev/null` on, which is the file `null`.
unfoldable pub redirect_to_null : SystemCalls → ℕ → Proc → Option ℕ → Daemon
redirect_to_null calls null p none = daemon_error p
redirect_to_null calls null p (some fd) =
    let p1 = set_file fd (some null) p in
    let p2 = redirect fd 0 p1 in
    let p3 = redirect fd 1 p2 in
    if not calls.dup_stdin
    then daemon_error p1
    else if not calls.dup_stdout
    then daemon_error p2
    else if ltb 2 fd
    then (if calls.close then is_daemon (set_file fd none p3) else daemon_error p3)
    else is_daemon p3

unfoldable pub in_session : SystemCalls → ℕ → Proc → Daemon
in_session calls null p =
    if calls.setsid then redirect_to_null calls null p calls.open_null else daemon_error p

unfoldable pub after_fork : SystemCalls → ℕ → Proc → Forked → Daemon
after_fork calls null p fork_failed = daemon_error p
after_fork calls null p (in_child n) = in_session calls null (record p { self = n; pid = n })
after_fork calls null p in_parent = parent_exit

unfoldable pub daemonize : SystemCalls → ℕ → Proc → Daemon
daemonize calls null p = after_fork calls null p calls.fork

-- The input and the output are `/dev/null`, the number in `Pid` is the child's own, and every
-- descriptor above that of stderr is as it was.
pub record IsDetached (null : ℕ) (p q : Proc) : Type 0 where
  pub own : q.pid ≡ q.self
  pub input : q.files 0 ≡ some null
  pub output : q.files 1 ≡ some null
  pub others : (d : ℕ) → 2 < d → q.files d ≡ p.files d

abbrev Detached : ℕ → Proc → Daemon → Type 0
Detached null p (is_daemon q) = IsDetached null p q × (q.self ≡ p.self)
Detached null p (daemon_error q) = Unit {0}
Detached null p parent_exit = Unit {0}

module _ (calls : SystemCalls) (null : ℕ) where
  redirect_to_null-Detached :
      (p : Proc) (o : Option ℕ)
      → p.pid ≡ p.self
      → ((fd : ℕ) → o ≡ some fd → p.files fd ≡ none)
      → Detached null p (redirect_to_null calls null p o)
  unfolding redirect_to_null
  redirect_to_null-Detached p none own fresh = tt
  redirect_to_null-Detached p (some fd) own fresh =
      let free = fresh fd refl in
      if_cases (Detached null p) (not calls.dup_stdin) (λ e. tt)
        (λ e.
          if_cases (Detached null p) (not calls.dup_stdout) (λ e'. tt)
            (λ e'.
              if_cases (Detached null p) (ltb 2 fd)
                (λ big.
                  if_cases (Detached null p) calls.close
                    (λ k. (
                      record {
                        own = own;
                        input = ground arith;
                        output = ground arith;
                        others = λ d l. ground arith;
                      },
                      refl,
                    ))
                    (λ k. tt))
                (λ small. (
                  record {
                    own = own;
                    input = ground arith;
                    output = ground arith;
                    others = λ d l. ground arith;
                  },
                  refl,
                ))))

  of_daemon :
      (p : Proc) (n : ℕ) (q : Proc) (r : Daemon)
      → r ≡ is_daemon q
      → Detached null (record p { self = n; pid = n }) r
      → IsDetached null p q × (q.self ≡ n)
  of_daemon p n q r e d =
      let (t, k) = rw e at d in
      (record { own = t.own; input = t.input; output = t.output; others = t.others }, k)

  -- What an OK says: the process is a child of fork(), leads a session, and is detached.
  abbrev pub IsDaemonOf : Proc → Forked → Proc → Type 0
  IsDaemonOf p f q =
      (n : ℕ) × (f ≡ in_child n) × (calls.setsid ≡ true) × IsDetached null p q × (q.self ≡ n)

  after_fork-IsDaemonOf :
      (p q : Proc) (f : Forked)
      → ((fd : ℕ) → calls.open_null ≡ some fd → p.files fd ≡ none)
      → after_fork calls null p f ≡ is_daemon q
      → IsDaemonOf p f q
  unfolding after_fork in_session redirect_to_null
  after_fork-IsDaemonOf p q fork_failed fresh e = cc e
  after_fork-IsDaemonOf p q in_parent fresh e = cc e
  after_fork-IsDaemonOf p q (in_child n) fresh e =
      let p' : Proc = record p { self = n; pid = n } in
      elim (Bool-cases calls.setsid) [
        | inl k ↦
            let d =
              of_daemon p n q (redirect_to_null calls null p' calls.open_null) (rw k at e)
                (redirect_to_null-Detached p' calls.open_null refl fresh) in
            (n, refl, k, d.0, d.1)
        | inr k ↦ cc (rw k at e)
      ]

  -- A `Daemonize` that returns OK has been through a fork() and a setsid() that did not fail, and it
  -- returns in the child: its `Pid` and its own number are what the fork gave it, `/dev/null` is its
  -- input and its output, and every descriptor above that of stderr is as it was, if open() returns
  -- a free descriptor.
  pub daemonize-IsDetached :
      (p q : Proc)
      → ((fd : ℕ) → calls.open_null ≡ some fd → p.files fd ≡ none)
      → daemonize calls null p ≡ is_daemon q
      → IsDaemonOf p calls.fork q
  unfolding daemonize
  daemonize-IsDetached p q fresh e = after_fork-IsDaemonOf p q calls.fork fresh e

abbrev pub HasOwnPid : Daemon → Type 0
HasOwnPid (is_daemon q) = q.pid ≡ q.self
HasOwnPid (daemon_error q) = Unit {0}
HasOwnPid parent_exit = Unit {0}

module _ (calls : SystemCalls) (null : ℕ) where
  redirect_to_null-HasOwnPid :
      (p : Proc) (o : Option ℕ) → p.pid ≡ p.self → HasOwnPid (redirect_to_null calls null p o)
  unfolding redirect_to_null
  redirect_to_null-HasOwnPid p none own = tt
  redirect_to_null-HasOwnPid p (some fd) own =
      if_cases HasOwnPid (not calls.dup_stdin) (λ e. tt)
        (λ e.
          if_cases HasOwnPid (not calls.dup_stdout) (λ e'. tt)
            (λ e'.
              if_cases HasOwnPid (ltb 2 fd)
                (λ big. if_cases HasOwnPid calls.close (λ k. own) (λ k. tt)) (λ small. own)))

  after_fork-HasOwnPid : (p : Proc) (f : Forked) → HasOwnPid (after_fork calls null p f)
  unfolding after_fork in_session
  after_fork-HasOwnPid p fork_failed = tt
  after_fork-HasOwnPid p (in_child n) =
      if_cases HasOwnPid calls.setsid
        (λ e. redirect_to_null-HasOwnPid (record p { self = n; pid = n }) calls.open_null refl)
        (λ e. tt)
  after_fork-HasOwnPid p in_parent = tt

  pub daemonize-HasOwnPid : (p : Proc) → HasOwnPid (daemonize calls null p)
  unfolding daemonize
  daemonize-HasOwnPid p = after_fork-HasOwnPid p calls.fork
