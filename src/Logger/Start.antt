-- ===== src/Logger/Start.antt =====
-- src/logger.c: `open_logfile`, `open_socket` and `logger_init`, up to the timer.
use av3_fc.Base.Int.{ℤ}
use av3_fc.Base.{
  ℕ, zero, suc, ◌+◌, ◌-◌, ◌/◌, ◌%◌, ◌≤◌, ◌<◌, List, [], ◌∷◌, ◌++◌, ◌≡◌, refl, ap, ◌∙◌, arith,
  length, take, if◌then◌else◌,
}
use native.Mathlib.Decide.{ℕ_discrete}
use av3_fc.Base.Bytes.{Bytes, codes}
use av3_fc.Logger.{State}
use av3_fc.Sockets.{Call, add_fd, failed}

-- `LOGFILE_DIGITS`, and `attempt_count`, 1e3.
abbrev pub logfile_digits : ℕ
logfile_digits = 3

abbrev pub attempt_count : ℕ
attempt_count = 1000

-- `%03d`, for a number below `attempt_count`.
abbrev pub three_digits : ℕ → Bytes
three_digits i = (b'0' + i / 100 % 10) ∷ (b'0' + i / 10 % 10) ∷ (b'0' + i % 10) ∷ []

abbrev pub logfile_base : Bytes
logfile_base = codes "logfile-"

-- `sizeof LOGFILE_BASE + LOGFILE_DIGITS`, where `sizeof` counts the NUL.
abbrev pub buf_size : ℕ
buf_size = length logfile_base + 1 + logfile_digits

-- `snprintf(buf, sizeof buf, ...)`, up to the NUL, for which it keeps a byte.
unfoldable pub logfile_name : ℕ → Bytes
logfile_name i = take (buf_size - 1) (logfile_base ++ three_digits i)

-- What `open` gives: a descriptor, or -1 with `errno` either EEXIST or EISDIR, or another.
pub data Opened : Type 0 where
  descriptor : ℕ → Opened
  taken : Opened
  refused : Opened

-- A function that may call `exit(1)`.
pub data Outcome (A : Type 0) : Type 0 where
  exited : Outcome A
  went_on : A → Outcome A

-- The loop, with the rounds left, and what `open` gives for a name: `disk_fd` and the name.
unfoldable pub try_names : (Bytes → Opened) → ℕ → ℕ → Outcome (ℕ × Bytes)
try_names open_file zero i = exited
try_names open_file (suc left) i = elim (open_file (logfile_name i)) [
  | descriptor fd ↦ went_on (fd, logfile_name i)
  | taken ↦ try_names open_file left (i + 1)
  | refused ↦ exited
]

unfoldable pub open_logfile : (Bytes → Opened) → Outcome (ℕ × Bytes)
unfolding try_names
open_logfile open_file = try_names open_file attempt_count 0

-- With what `socket` and `connect` give; the result of `setsockopt` is not looked at.
unfoldable pub open_socket : ℤ → ℤ → ℤ → Outcome ℤ
open_socket created set connected =
    if failed created then exited else if failed connected then exited else went_on created

-- `disk_fd`, `net_fd`, the variables, and what is done with the timer's descriptor.
pub record Started : Type 0 where
  pub disk_fd : ℕ
  pub net_fd : ℤ
  pub log : State
  pub calls : List Call

-- One call after the other, as long as none of them calls `exit`.
abbrev pub unless_exited : {A B : Type 0} → Outcome A → (A → Outcome B) → Outcome B
unless_exited exited f = exited
unless_exited (went_on a) f = f a

-- With what the system calls give, `timerfd_create` last. Its failure is not looked at.
unfoldable pub logger_init : (Bytes → Opened) → ℤ → ℤ → ℤ → ℤ → State → Outcome Started
unfolding open_logfile open_socket
logger_init open_file created set connected timer s =
    unless_exited (open_logfile open_file) (λ (f : ℕ × Bytes).
      unless_exited (open_socket created set connected) (λ net. went_on (record {
        disk_fd = f.0;
        net_fd = net;
        log = record s { sequence = 0; log_buffer = []; disk_log_buffer = [] };
        calls = add_fd timer ∷ [];
      })))

-- Ways for the loop to end: the first name, from `i` on, that `open` does not say is taken is
-- created, or refused; or all `left` names are taken.
pub data Ends (open_file : Bytes → Opened) (i left : ℕ) : Outcome (ℕ × Bytes) → Type 0 where
  created :
      (j fd : ℕ)
      → i ≤ j
      → j < i + left
      → ((k : ℕ) → i ≤ k → k < j → open_file (logfile_name k) ≡ taken)
      → open_file (logfile_name j) ≡ descriptor fd
      → Ends open_file i left (went_on (fd, logfile_name j))
  not_created :
      (j : ℕ)
      → i ≤ j
      → j < i + left
      → ((k : ℕ) → i ≤ k → k < j → open_file (logfile_name k) ≡ taken)
      → open_file (logfile_name j) ≡ refused
      → Ends open_file i left exited
  all_taken :
      ((k : ℕ) → i ≤ k → k < i + left → open_file (logfile_name k) ≡ taken)
      → Ends open_file i left exited

-- The first name is not taken, or it is, and so are the names after it that are.
from_next :
    (open_file : Bytes → Opened) (i j : ℕ)
    → open_file (logfile_name i) ≡ taken
    → ((k : ℕ) → i + 1 ≤ k → k < j → open_file (logfile_name k) ≡ taken)
    → (k : ℕ) → i ≤ k
    → k < j
    → open_file (logfile_name k) ≡ taken
from_next open_file i j h later k le lt = elim (ℕ_discrete k i) [
  | yes same ↦ ap (λ x. open_file (logfile_name x)) same ∙ h
  | no other ↦ later k (omega arith) lt
]

try_names_step :
    (open_file : Bytes → Opened) (left i : ℕ) (r : Outcome (ℕ × Bytes))
    → open_file (logfile_name i) ≡ taken
    → Ends open_file (i + 1) left r
    → Ends open_file i (suc left) r
try_names_step open_file left i _ h (created j fd le lt before now) =
    created j fd (omega arith) (omega arith) (from_next open_file i j h before) now
try_names_step open_file left i _ h (not_created j le lt before now) =
    not_created j (omega arith) (omega arith) (from_next open_file i j h before) now
try_names_step open_file left i _ h (all_taken before) =
    all_taken (λ k le lt.
      from_next open_file i (i + suc left) h (λ m a b. before m a (omega arith)) k le lt)

try_names_first :
    (open_file : Bytes → Opened) (left i : ℕ) (o : Opened)
    → open_file (logfile_name i) ≡ o
    → Ends open_file (i + 1) left (try_names open_file left (i + 1))
    → Ends open_file i (suc left) (try_names open_file (suc left) i)
unfolding try_names
try_names_first open_file left i (descriptor fd) e rest =
    rw (try_names, e) (created i fd (omega arith) (omega arith) (λ k a b. absurd (omega arith)) e)
try_names_first open_file left i taken e rest =
    rw (try_names, e) (try_names_step open_file left i _ e rest)
try_names_first open_file left i refused e rest =
    rw (try_names, e) (not_created i (omega arith) (omega arith) (λ k a b. absurd (omega arith)) e)

try_names-Ends :
    (open_file : Bytes → Opened) (left i : ℕ) → Ends open_file i left (try_names open_file left i)
unfolding try_names
try_names-Ends open_file zero i = all_taken (λ k a b. absurd (omega arith))
try_names-Ends open_file (suc left) i =
    try_names_first open_file left i (open_file (logfile_name i)) refl
      (try_names-Ends open_file left (i + 1))

-- `open_logfile` ends after at most 1,000 attempts, whatever `open` gives. It goes on with the file
-- that it created under the first of the names from logfile-000 to logfile-999 that is not taken; it
-- exits if that name is refused, or if all of them are taken.
pub open_logfile-Ends :
    (open_file : Bytes → Opened) → Ends open_file 0 1000 (open_logfile open_file)
unfolding open_logfile
open_logfile-Ends open_file = try_names-Ends open_file 1000 0

-- Different attempts have different names: the buffer holds all three digits.
pub logfile_name_injective :
    (i j : ℕ) → i < 1000 → j < 1000 → logfile_name i ≡ logfile_name j → i ≡ j
unfolding logfile_name
logfile_name_injective i j h g e = ground arith
