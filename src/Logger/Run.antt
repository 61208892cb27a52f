-- ===== src/Logger/Run.antt =====
-- The logger over all that the other modules ask of it.
use av3_fc.Base.{
  ◌+◌, ◌≤◌, List, [], ◌∷◌, ◌++◌, Option, none, some, ◌≡◌, refl, sym, ap, ◌∙◌, arith, length, map,
  concat, append_assoc, append-nil, All,
}
use av3_fc.Base.Bytes.{Bytes}
use av3_fc.Message.{Message}
use av3_fc.Logger.{
  State, p_limit, disk_log_buffer_max, flush_log, encode, message_len, log_write_disk_only,
  log_write, initial, logger_final, log_timeout,
}
use av3_fc.Logger.Limits.{IsValid, IsMessage, IsNumbered}
use av3_fc.Logger.Contents.{
  on_disk, on_net, behind_seqn, behind_number, flush_log-Keeps, flush_log-empties, empty_of_length,
}
use av3_fc.Logger.Write.{Adds, log_write_lem, log_write_disk_only_lem}

-- What the other modules ask of the logger.
pub data Request : Type 0 where
  write write_disk_only : Message → Request
  timeout : Request

-- A request, with the time at which it is made.
abbrev pub apply : Bytes → Request → State → Option State
apply now (write m) s = log_write now m s
apply now (write_disk_only m) s = log_write_disk_only now m s
apply now timeout s = some (log_timeout now s)

unfoldable pub run : List (Bytes × Request) → State → Option State
run [] s = some s
run ((now, q) ∷ qs) s = elim (apply now q s) [ none ↦ none | some s' ↦ run qs s' ]

-- The request's message is whole, and fits what it is written to.
abbrev pub Fits : Request → Type 0
Fits (write m) = IsMessage m × (message_len m ≤ p_limit)
Fits (write_disk_only m) = IsMessage m × (message_len m ≤ disk_log_buffer_max)
Fits timeout = Unit {0}

abbrev pub AllFit : List (Bytes × Request) → Type 0
AllFit [] = Unit {0}
AllFit ((now, q) ∷ qs) = (length now ≡ 6) × Fits q × AllFit qs

-- The messages that a request is to add to each log.
abbrev pub disk_messages : Request → List Message
disk_messages (write m) = m ∷ []
disk_messages (write_disk_only m) = m ∷ []
disk_messages timeout = []

abbrev pub net_messages : Request → List Message
net_messages (write m) = m ∷ []
net_messages (write_disk_only m) = []
net_messages timeout = []

abbrev pub all_for : (Request → List Message) → List (Bytes × Request) → List Message
all_for f [] = []
all_for f ((now, q) ∷ qs) = f q ++ all_for f qs

abbrev pub encode_all : List Message → Bytes
encode_all ms = concat (map encode ms)

pub encode_all-append :
    (xs ys : List Message) → encode_all (xs ++ ys) ≡ encode_all xs ++ encode_all ys
encode_all-append [] ys = refl
encode_all-append (x ∷ xs) ys =
    ap (λ z. encode x ++ z) (encode_all-append xs ys)
    ∙ sym (append_assoc (encode x) (encode_all xs) (encode_all ys))

pub Adds-trans :
    (d n d' n' : Bytes) (s t u : State)
    → Adds d n s t
    → Adds d' n' t u
    → Adds (d ++ d') (n ++ n') s u
Adds-trans d n d' n' s t u a b = record {
  valid = b.valid;
  disk_lem = b.disk_lem ∙ ap (λ x. x ++ d') a.disk_lem ∙ append_assoc (on_disk s) d d';
  net_lem = b.net_lem ∙ ap (λ x. x ++ n') a.net_lem ∙ append_assoc (on_net s) n n';
}

-- One request is granted, and adds its message.
pub apply_lem :
    (now : Bytes) (q : Request) (s : State)
    → length now ≡ 6
    → Fits q
    → IsValid s
    → (s' : State) × (apply now q s ≡ some s')
      × Adds (encode_all (disk_messages q)) (encode_all (net_messages q)) s s'
apply_lem now (write m) s h (i, le) v = rw append-nil (log_write_lem now m s h i le v)
apply_lem now (write_disk_only m) s h (i, le) v =
    rw append-nil (log_write_disk_only_lem now m s h i le v)
apply_lem now timeout s h f v =
    let k = flush_log-Keeps now s h v in
    (
      flush_log now s,
      refl,
      record {
        valid = k.valid;
        disk_lem = k.same_disk ∙ sym (append-nil (on_disk s));
        net_lem = k.same_net ∙ sym (append-nil (on_net s));
      },
    )

-- From a valid state any requests whose messages fit are granted, whatever the flushes in between:
-- no buffer is overrun, and what is logged grows by exactly the messages of the requests, in order,
-- to the disk by all of them and to the ground by those of `log_write`.
pub run_lem :
    (qs : List (Bytes × Request)) (s : State)
    → AllFit qs
    → IsValid s
    → (s' : State) × (run qs s ≡ some s')
      × Adds (encode_all (all_for disk_messages qs)) (encode_all (all_for net_messages qs)) s s'
unfolding run
run_lem [] s f v = (
  s,
  refl,
  record {
    valid = v;
    disk_lem = sym (append-nil (on_disk s));
    net_lem = sym (append-nil (on_net s));
  },
)
run_lem ((now, q) ∷ qs) s (h, f, fs) v =
    let (t, e, a) = apply_lem now q s h f v in
    let (u, es, b) = run_lem qs t fs a.valid in
    (u, rw (e, run) es, rw (encode_all-append, encode_all-append) (Adds-trans _ _ _ _ s t u a b))

pub initial-IsValid : IsValid initial
initial-IsValid = record {
  nested = omega arith;
  net_room = omega arith;
  disk_room = omega arith;
  fits_link = tt;
  numbered = tt;
  counted = omega arith;
}

-- What the log file and the ground have got in the end.
pub record Complete (qs : List (Bytes × Request)) (s : State) : Type 0 where
  pub file : concat (map behind_seqn s.disk) ≡ encode_all (all_for disk_messages qs)
  pub ground_log : concat (map behind_number s.net) ≡ encode_all (all_for net_messages qs)
  pub fits_link : All (λ d. length d ≤ p_limit + 4) s.net
  pub numbered : IsNumbered 0 s.net

pub flush_log-Complete :
    (now : Bytes) (qs : List (Bytes × Request)) (s : State)
    → length now ≡ 6
    → Adds (encode_all (all_for disk_messages qs)) (encode_all (all_for net_messages qs)) initial s
    → Complete qs (flush_log now s)
flush_log-Complete now qs s h a =
    let k = flush_log-Keeps now s h a.valid in
    let t = flush_log now s in
    let e = flush_log-empties now s a.valid in
    let no_disk : t.disk_log_buffer ≡ [] = empty_of_length t.disk_log_buffer (omega (arith, e.0)) in
    let no_net : t.log_buffer ≡ [] = empty_of_length t.log_buffer (omega (arith, e.1)) in
    record {
      file =
          sym (append-nil _)
          ∙ ap (λ b. concat (map behind_seqn t.disk) ++ b) (sym no_disk)
          ∙ k.same_disk
          ∙ a.disk_lem;
      ground_log =
          sym (append-nil _)
          ∙ ap (λ b. concat (map behind_number t.net) ++ b) (sym no_net)
          ∙ k.same_net
          ∙ a.net_lem;
      fits_link = k.valid.fits_link;
      numbered = k.valid.numbered;
    }

-- From `logger_init` to `logger_final`, if every message is whole in memory and, with its header,
-- has at most 1,428 bytes for `log_write` and 65,536 for `log_write_disk_only`: nothing is
-- overrun, the log file holds behind its SEQN records exactly the messages logged, in order, the
-- datagrams hold behind their numbers exactly those for the ground, each datagram is at most
-- 1,432 bytes long, and they are numbered from 0 on.
pub whole_log :
    (qs : List (Bytes × Request)) (now : Bytes)
    → AllFit qs
    → length now ≡ 6
    → (s : State) × (run qs initial ≡ some s) × Complete qs (logger_final now s)
whole_log qs now f h =
    let (s, e, a) = run_lem qs initial f initial-IsValid in (s, e, flush_log-Complete now qs s h a)
