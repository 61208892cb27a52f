-- ===== src/Logger/History.antt =====
-- A log as what some requests have made it, and messages that are among them.
use av3_fc.Base.{
  ◌<◌, ◌^◌, List, [], ◌∷◌, ◌++◌, some, ◌≡◌, refl, sym, ap, ◌∙◌, arith, length, map, concat, All,
  ◌⊎◌, inl, inr, append-nil, append_assoc,
}
use av3_fc.Base.Bytes.{Bytes}
use mathlib.Core.Path.{subst}
use av3_fc.Message.{Message}
use av3_fc.Logger.{State, initial, log_write, logger_final}
use av3_fc.Logger.Limits.{IsMessage}
use av3_fc.Logger.Contents.{behind_seqn, behind_number}
use av3_fc.Logger.Write.{Adds}
use av3_fc.Logger.Run.{
  Request, write, write_disk_only, timeout, apply, Fits, AllFit, disk_messages, net_messages,
  all_for, encode_all, encode_all-append, Adds-trans, apply_lem, initial-IsValid,
  flush_log-Complete,
}
use av3_fc.Logger.Decode.{read_log, entry_of, read_log-encode_all}

-- Some messages are among others, in this order.
abbrev pub Among : List Message → List Message → Type 0
Among [] ys = Unit {0}
Among (x ∷ xs) [] = ⊥
Among (x ∷ xs) (y ∷ ys) = ((x ≡ y) × Among xs ys) ⊎ Among (x ∷ xs) ys

Among-left : (ms xs ys : List Message) → Among ms xs → Among ms (xs ++ ys)
Among-left [] xs ys h = tt
Among-left (m ∷ ms) [] ys h = absurd h
Among-left (m ∷ ms) (x ∷ xs) ys (inl (e, h)) = inl (e, Among-left ms xs ys h)
Among-left (m ∷ ms) (x ∷ xs) ys (inr h) = inr (Among-left (m ∷ ms) xs ys h)

Among-last : (m : Message) (xs : List Message) → Among (m ∷ []) (xs ++ m ∷ [])
Among-last m [] = inl (refl, tt)
Among-last m (x ∷ xs) = inr (Among-last m xs)

Among-snoc :
    (m : Message) (ms xs : List Message) → Among ms xs → Among (ms ++ m ∷ []) (xs ++ m ∷ [])
Among-snoc m [] xs h = Among-last m xs
Among-snoc m (x ∷ ms) [] h = absurd h
Among-snoc m (x ∷ ms) (y ∷ xs) (inl (e, h)) = inl (e, Among-snoc m ms xs h)
Among-snoc m (x ∷ ms) (y ∷ xs) (inr h) = inr (Among-snoc m (x ∷ ms) xs h)

-- The log is what some requests that fit have made of an empty one, and the messages of `must` are
-- among those for the disk and among those for the ground, in this order.
pub record IsHistory (must : List Message) (qs : List (Bytes × Request)) (l : State) : Type 0 where
  pub fit : AllFit qs
  pub adds :
      Adds (encode_all (all_for disk_messages qs)) (encode_all (all_for net_messages qs)) initial l
  pub disk_has : Among must (all_for disk_messages qs)
  pub net_has : Among must (all_for net_messages qs)

abbrev pub HasHistory : List Message → State → Type 0
HasHistory must l = (qs : List (Bytes × Request)) × IsHistory must qs l

all_for-append :
    (f : Request → List Message) (ps qs : List (Bytes × Request))
    → all_for f (ps ++ qs) ≡ all_for f ps ++ all_for f qs
all_for-append f [] qs = refl
all_for-append f ((now, p) ∷ ps) qs =
    ap (λ z. f p ++ z) (all_for-append f ps qs)
    ∙ sym (append_assoc (f p) (all_for f ps) (all_for f qs))

AllFit-append : (ps qs : List (Bytes × Request)) → AllFit ps → AllFit qs → AllFit (ps ++ qs)
AllFit-append [] qs h k = k
AllFit-append ((now, p) ∷ ps) qs (a, b, c) k = (a, b, AllFit-append ps qs c k)

Among-all_for :
    (f : Request → List Message) (ps qs : List (Bytes × Request)) (must : List Message)
    → Among must (all_for f ps)
    → Among must (all_for f (ps ++ qs))
Among-all_for f ps qs must h =
    subst (Among must) (sym (all_for-append f ps qs))
      (Among-left must (all_for f ps) (all_for f qs) h)

encode_all-snoc :
    (f : Request → List Message) (qs : List (Bytes × Request)) (now : Bytes) (q : Request)
    → encode_all (all_for f (qs ++ (now, q) ∷ [])) ≡ encode_all (all_for f qs) ++ encode_all (f q)
encode_all-snoc f qs now q =
    ap encode_all (all_for-append f qs ((now, q) ∷ []))
    ∙ encode_all-append (all_for f qs) (f q ++ [])
    ∙ ap (λ z. encode_all (all_for f qs) ++ encode_all z) (append-nil (f q))

-- One more request.
IsHistory-snoc :
    (now : Bytes) (q : Request) (must : List Message) (qs : List (Bytes × Request)) (l l' : State)
    → length now ≡ 6
    → Fits q
    → IsHistory must qs l
    → Adds (encode_all (disk_messages q)) (encode_all (net_messages q)) l l'
    → IsHistory must (qs ++ (now, q) ∷ []) l'
IsHistory-snoc now q must qs l l' six f h a = record {
  fit = AllFit-append qs ((now, q) ∷ []) h.fit (six, f, tt);
  adds =
      rw (encode_all-snoc disk_messages qs now q, encode_all-snoc net_messages qs now q)
        (Adds-trans _ _ _ _ initial l l' h.adds a);
  disk_has = Among-all_for disk_messages qs ((now, q) ∷ []) must h.disk_has;
  net_has = Among-all_for net_messages qs ((now, q) ∷ []) must h.net_has;
}

-- Whatever fits is granted, and is the last request then.
pub apply-HasHistory :
    (now : Bytes) (q : Request) (must : List Message) (l : State)
    → length now ≡ 6
    → Fits q
    → HasHistory must l
    → (l' : State) × (apply now q l ≡ some l') × HasHistory must l'
apply-HasHistory now q must l six f (qs, h) =
    let (l', e, a) = apply_lem now q l six f h.adds.valid in
    (l', e, (qs ++ (now, q) ∷ [], IsHistory-snoc now q must qs l l' six f h a))

-- And a message that was logged to both logs is behind the others of the history from then on.
pub log_write-HasHistory :
    (now : Bytes) (m : Message) (must : List Message) (l : State)
    → length now ≡ 6
    → Fits (write m)
    → HasHistory must l
    → (l' : State) × (log_write now m l ≡ some l') × HasHistory (must ++ m ∷ []) l'
log_write-HasHistory now m must l six f (qs, h) =
    let (l', e, a) = apply_lem now (write m) l six f h.adds.valid in
    let k = IsHistory-snoc now (write m) must qs l l' six f h a in
    let last =
      λ (g : Request → List Message) (e : g (write m) ≡ m ∷ []) (r : Among must (all_for g qs)).
        subst (Among (must ++ m ∷ []))
          (sym (all_for-append g qs ((now, write m) ∷ []) ∙ ap (λ x. all_for g qs ++ (x ++ [])) e))
          (Among-snoc m must (all_for g qs) r) in
    (
      l',
      e,
      (
        qs ++ (now, write m) ∷ [],
        record {
          fit = k.fit;
          adds = k.adds;
          disk_has = last disk_messages refl h.disk_has;
          net_has = last net_messages refl h.net_has;
        },
      ),
    )

pub initial-HasHistory : HasHistory [] initial
initial-HasHistory = (
  [],
  record {
    fit = tt;
    adds = record { valid = initial-IsValid; disk_lem = refl; net_lem = refl };
    disk_has = tt;
    net_has = tt;
  },
)

-- The messages of requests that fit are whole, and have fewer than 2^16 bytes.
messages_whole :
    (qs : List (Bytes × Request))
    → AllFit qs
    → All IsMessage (all_for disk_messages qs)
      × All (λ m. m.data_length < 2 ^ 16) (all_for disk_messages qs)
messages_whole [] h = (tt, tt)
messages_whole ((now, write m) ∷ qs) (six, (i, le), h) =
    let (a, b) = messages_whole qs h in ((i, a), (omega arith, b))
messages_whole ((now, write_disk_only m) ∷ qs) (six, (i, le), h) =
    let (a, b) = messages_whole qs h in ((i, a), (omega arith, b))
messages_whole ((now, timeout) ∷ qs) (six, f, h) = messages_whole qs h

ground_whole :
    (qs : List (Bytes × Request))
    → AllFit qs
    → All IsMessage (all_for net_messages qs)
      × All (λ m. m.data_length < 2 ^ 16) (all_for net_messages qs)
ground_whole [] h = (tt, tt)
ground_whole ((now, write m) ∷ qs) (six, (i, le), h) =
    let (a, b) = ground_whole qs h in ((i, a), (omega arith, b))
ground_whole ((now, write_disk_only m) ∷ qs) (six, f, h) = ground_whole qs h
ground_whole ((now, timeout) ∷ qs) (six, f, h) = ground_whole qs h

-- Some bytes are the records of some messages, in order, all of `must` among them, in their order.
pub record ReadsAs (must : List Message) (b : Bytes) : Type 0 where
  pub messages : List Message
  pub read : read_log (length messages) b ≡ some (map entry_of messages)
  pub has : Among must messages

-- The log file, behind its SEQN records, and the datagrams, behind their numbers.
abbrev pub ReadBack : List Message → State → Type 0
ReadBack must s =
    ReadsAs must (concat (map behind_seqn s.disk)) × ReadsAs must (concat (map behind_number s.net))

pub logger_final-ReadBack :
    (now : Bytes) (must : List Message) (l : State)
    → length now ≡ 6
    → HasHistory must l
    → ReadBack must (logger_final now l)
logger_final-ReadBack now must l six (qs, h) =
    let c = flush_log-Complete now qs l six h.adds in
    let (whole, small) = messages_whole qs h.fit in
    let (net_whole, net_small) = ground_whole qs h.fit in
    let ms : List Message = all_for disk_messages qs in
    let ns : List Message = all_for net_messages qs in
    (
      record {
        messages = ms;
        read =
            ap (read_log (length ms)) c.file
            ∙ read_log-encode_all (length ms) ms (omega arith) whole small;
        has = h.disk_has;
      },
      record {
        messages = ns;
        read =
            ap (read_log (length ns)) c.ground_log
            ∙ read_log-encode_all (length ns) ns (omega arith) net_whole net_small;
        has = h.net_has;
      },
    )
