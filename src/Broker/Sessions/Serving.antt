-- ===== src/Broker/Sessions/Serving.antt =====
-- What the subscriber's session sends of what is in the box's file.
use so.Prelude.{
  ℕ, zero, suc, ◌+◌, ◌<◌, ◌≡◌, refl, sym, ap, ◌∙◌, true, false, some, List, [], ◌∷◌, ◌++◌,
  append_assoc, append-nil, length, length-append, length-drop, drop, take, replicate, set,
  get_elem?-set_self, lt_of_get_elem?, min, ◌==◌, arith, lt→ltb, subst,
}
use so.Prelude.Int.{pos}
use so.Prelude.Run.{ok}
use so.Prelude.Returns
use so.Prelude.Returns.{Returns, returns, mono}
use so.Prelude.Bytes.{IsText, strncpy_bytes, drop-drop}
use so.Fs.Types.{Inode, OpenFileEntry, Fs}
use so.Fs.Operations.{tfs_read}
use so.Fs.Read.{advanced, left, tfs_read_lem}
use so.Fs.RoundTrip.{length-file_bytes}
use so.Fs.Valid.{Holds, IsOpen, IsValid, file_bytes}
use so.Fs.Write.{moved}
use so.Broker.{Broker}
use so.Broker.Sessions.{Reading, Served, waiting, set_byte, take_byte, serve_loop}
use so.Broker.Sessions.Stored.{stored, HasBox, HasBox-find_box}
use so.Client.Publisher.Frames.{frames, set-append}
use so.Client.Subscriber.Messages.{AreMessages}
use so.Wire.Strings.{fill_string-append}

-- Handle `h` is on inode `k`, and these bytes of its file are behind the handle's offset.
pub record Unread (s : Fs) (h k : ℕ) (bytes : List ℕ) : Type 0 where
  pub valid : IsValid s
  pub unlocked : s.locked ≡ false
  pub entry : OpenFileEntry
  pub inode : Inode
  pub is_open : IsOpen s h entry
  pub number : entry.of_inumber ≡ pos k
  pub holds : Holds s k inode
  pub behind : drop entry.of_offset (file_bytes s inode) ≡ bytes

module _ (s : Fs) (h k : ℕ) (bytes : List ℕ) (u : Unread s h k bytes) where
  length_behind : left u.entry u.inode 1 ≡ min 1 (length bytes)
  length_behind =
      let size = length-file_bytes s k u.inode u.valid u.holds in
      let rest = length-drop u.entry.of_offset (file_bytes s u.inode) in
      let same : length (drop u.entry.of_offset (file_bytes s u.inode)) ≡ length bytes =
        ap length u.behind in
      omega arith

  -- A read of one byte: what it gives, and what is behind the offset then.
  read_byte :
      (s' : Fs) × (tfs_read (pos h) 1 s
        ≡ ok (pos (min 1 (length bytes)), take (min 1 (length bytes)) bytes) s')
      × Unread s' h k (drop (min 1 (length bytes)) bytes)
  read_byte =
      let (read, valid) =
        tfs_read_lem s h k 1 u.entry u.inode u.valid u.unlocked u.is_open u.number u.holds in
      let m = left u.entry u.inode 1 in
      (
        advanced s h u.entry m,
        read
            ∙ ap (λ t. ok (pos m, take m t) (advanced s h u.entry m)) u.behind
            ∙ ap (λ t. ok (pos t, take t bytes) (advanced s h u.entry m)) length_behind,
        record {
          valid = valid;
          unlocked = u.unlocked;
          entry = moved u.entry m;
          inode = u.inode;
          is_open = (
            u.is_open.0,
            get_elem?-set_self s.open_file_table h (moved u.entry m)
                (lt_of_get_elem? s.open_file_table h u.is_open.1),
          );
          number = u.number;
          holds = u.holds;
          behind =
              sym (drop-drop m u.entry.of_offset (file_bytes s u.inode))
              ∙ ap (drop m) u.behind
              ∙ ap (λ t. drop t bytes) length_behind;
        },
      )

read_none :
    (s : Fs) (h k : ℕ)
    → Unread s h k []
    → (s' : Fs) × (tfs_read (pos h) 1 s ≡ ok (pos 0, []) s') × Unread s' h k []
read_none s h k u = let (s', e, u') = read_byte s h k [] u in (s', e, u')

read_some :
    (s : Fs) (h k c : ℕ) (bytes : List ℕ)
    → Unread s h k (c ∷ bytes)
    → (s' : Fs) × (tfs_read (pos h) 1 s ≡ ok (pos 1, c ∷ []) s') × Unread s' h k bytes
read_some s h k c bytes u =
    let (s', e, u') = read_byte s h k (c ∷ bytes) u in
    let one : min 1 (length (c ∷ bytes)) ≡ 1 = omega arith in
    (
      s',
      e ∙ ap (λ t. ok (pos t, take t (c ∷ bytes)) s') one,
      subst (λ t. Unread s' h k (drop t (c ∷ bytes))) one u',
    )

-- The buffer has the start of a message in it, and behind it whatever lay there.
abbrev pub Holding : Reading → List ℕ → Type 0
Holding r p =
    (junk : List ℕ) × (r.i ≡ length p) × (r.buffer ≡ p ++ junk) × (length p + length junk ≡ 1024)

set_byte-at :
    (r : Reading) (p : List ℕ) (c d : ℕ) (junk : List ℕ)
    → r.i ≡ length p
    → r.buffer ≡ p ++ (d ∷ junk)
    → set_byte r.buffer r.i c ≡ some (p ++ (c ∷ junk))
set_byte-at r p c d junk i buffer =
    let there : length r.buffer ≡ length p + suc (length junk) =
      ap length buffer ∙ length-append p (d ∷ junk) in
    rw (lt→ltb r.i (length r.buffer) (omega arith)) (
      ap some (
        ap (λ t. set t r.i c) buffer
        ∙ ap (λ t. set (p ++ (d ∷ junk)) t c) i
        ∙ set-append p junk d c))

-- A byte of a message goes into the buffer.
take_byte-byte :
    (r : Reading) (p : List ℕ) (c : ℕ) (b : Broker)
    → Holding r p
    → 0 < c
    → length p + 1 < 1024
    → (r' : Reading) × (take_byte true r c b ≡ ok ([], r') b) × Holding r' (p ++ (c ∷ []))
unfolding take_byte
take_byte-byte r p c b ([], i, buffer, size) byte short = absurd (omega arith)
take_byte-byte r p c b (d ∷ junk, i, buffer, size) byte short =
    let not_end : (c == 0) ≡ false = ground arith in
    let longer = length-append p (c ∷ []) in
    (
      record { buffer = p ++ (c ∷ junk); i = r.i + 1; char_buffer = c },
      rw (not_end, set_byte-at r p c d junk i buffer) refl,
      (junk, omega arith, sym (append_assoc p (c ∷ []) junk), omega arith),
    )

-- The terminator ends the message: its frame is sent, and the buffer is empty again.
take_byte-end :
    (r : Reading) (p : List ℕ) (b : Broker)
    → Holding r p
    → IsText p
    → length p < 1024
    → (r' : Reading) × (take_byte true r 0 b ≡ ok (10 ∷ strncpy_bytes 1024 p, r') b) × Holding r' []
unfolding take_byte
take_byte-end r p b ([], i, buffer, size) is_text short = absurd (omega arith)
take_byte-end r p b (d ∷ junk, i, buffer, size) is_text short = (
  record { buffer = replicate 1024 0; i = 0; char_buffer = 0 },
  rw (set_byte-at r p 0 d junk i buffer, fill_string-append 1024 p junk is_text (omega arith)) refl,
  (replicate 1024 0, refl, refl, refl),
)

-- What is still to be sent: nothing, or a message of which `p` has been read and `q` has not, and
-- the messages behind it.
data Pending : Type 0 where
  idle : Pending
  inside : List ℕ → List ℕ → List (List ℕ) → Pending

abbrev held : Pending → List ℕ
held idle = []
held (inside p q ms) = p

abbrev unread : Pending → List ℕ
unread idle = []
unread (inside p q ms) = q ++ (0 ∷ stored ms)

abbrev due : Pending → List (List ℕ)
due idle = []
due (inside p q ms) = (p ++ q) ∷ ms

abbrev IsPending : Pending → Type 0
IsPending idle = Unit
IsPending (inside p q ms) = IsText p × IsText q × (length p + length q < 1024) × AreMessages ms

abbrev pending : List (List ℕ) → Pending
pending [] = idle
pending (m ∷ ms) = inside [] m ms

unread-pending : (ms : List (List ℕ)) → unread (pending ms) ≡ stored ms
unread-pending [] = refl
unread-pending (m ∷ ms) = refl

held-pending : (ms : List (List ℕ)) → held (pending ms) ≡ []
held-pending [] = refl
held-pending (m ∷ ms) = refl

due-pending : (ms : List (List ℕ)) → due (pending ms) ≡ ms
due-pending [] = refl
due-pending (m ∷ ms) = refl

pending-IsPending : (ms : List (List ℕ)) → AreMessages ms → IsPending (pending ms)
pending-IsPending [] are = tt
pending-IsPending (m ∷ ms) are = (tt, are.0, omega (arith, are.1), are.2)

-- Where the loop has sent all: it waits, with the handle at the end of what there was.
pub record Sent (b : Broker) (h k : ℕ) (ms : List (List ℕ)) (result : List ℕ × Served) (b' : Broker)
    : Type 0 where
  pub fs : Fs
  pub reading : Reading
  pub bytes : result ≡ (frames 10 ms, waiting reading)
  pub empty : Holding reading []
  pub rest : b' ≡ record b { fs = fs }
  pub all_read : Unread fs h k []

IsText-snoc : (p : List ℕ) (c : ℕ) → IsText p → 0 < c → IsText (p ++ (c ∷ []))
IsText-snoc [] c is_text byte = (byte, tt)
IsText-snoc (d ∷ p) c is_text byte = (is_text.0, IsText-snoc p c is_text.1 byte)

-- The subscriber's loop sends each message that is behind the handle's offset, and waits.
serve_loop-Pending :
    (fuel : ℕ) (todo : Pending) (r : Reading) (b : Broker) (h k i size : ℕ) (name : List ℕ)
    → length (unread todo) < fuel
    → IsPending todo
    → Holding r (held todo)
    → Unread b.fs h k (unread todo)
    → HasBox b.boxes name i size
    → Returns (λ result b'. Sent b h k (due todo) result b') (serve_loop fuel true (pos h) name r b)
unfolding serve_loop
serve_loop-Pending zero todo r b h k i size name enough are holding u box = absurd (omega arith)
serve_loop-Pending (suc fuel) idle r b h k i size name enough are holding u box =
    let (s', read, u') = read_none b.fs h k u in
    rw (HasBox-find_box b.boxes name i size box, lt→ltb i 64 box.inside, read)
      (returns (record {
        fs = s';
        reading = r;
        bytes = refl;
        empty = holding;
        rest = refl;
        all_read = u';
      }))
serve_loop-Pending (suc fuel) (inside p (c ∷ q) ms) r b h k i size name enough are holding u box =
    let (s', read, u') = read_some b.fs h k c (q ++ (0 ∷ stored ms)) u in
    let (r', took, holding') =
      take_byte-byte r p c (record b { fs = s' }) holding are.1.0 (omega (arith, are.2)) in
    let shorter = length-append p (c ∷ []) in
    rw (HasBox-find_box b.boxes name i size box, lt→ltb i 64 box.inside, read, took)
      (Returns.bind
        (serve_loop-Pending fuel (inside (p ++ (c ∷ [])) q ms) r' (record b { fs = s' }) h k i size
          name (omega arith) (IsText-snoc p c are.0 are.1.0, are.1.1, omega (arith, are.2), are.3)
          holding' u' box)
        (λ result b'. λ sent. returns (record {
          fs = sent.fs;
          reading = sent.reading;
          bytes =
              sent.bytes
              ∙ ap (λ t. (frames 10 (t ∷ ms), waiting sent.reading)) (append_assoc p (c ∷ []) q);
          empty = sent.empty;
          rest = sent.rest;
          all_read = sent.all_read;
        })))
serve_loop-Pending (suc fuel) (inside p [] ms) r b h k i size name enough are holding u box =
    let (s', read, u') = read_some b.fs h k 0 (stored ms) u in
    let (r', took, holding') =
      take_byte-end r p (record b { fs = s' }) holding are.0 (omega (arith, are.2)) in
    rw (HasBox-find_box b.boxes name i size box, lt→ltb i 64 box.inside, read, took)
      (Returns.bind
        (serve_loop-Pending fuel (pending ms) r' (record b { fs = s' }) h k i size name
          (omega (arith, ap length (unread-pending ms))) (pending-IsPending ms are.3)
          (subst (λ t. Holding r' t) (sym (held-pending ms)) holding')
          (subst (λ t. Unread s' h k t) (sym (unread-pending ms)) u') box)
        (λ result b'. λ sent. returns (record {
          fs = sent.fs;
          reading = sent.reading;
          bytes =
              ap (λ t. ((10 ∷ strncpy_bytes 1024 p) ++ t.0, t.1)) sent.bytes
              ∙ ap (λ t. ((10 ∷ strncpy_bytes 1024 p) ++ frames 10 t, waiting sent.reading))
                  (due-pending ms)
              ∙ ap (λ t. (frames 10 (t ∷ ms), waiting sent.reading)) (sym (append-nil p));
          empty = sent.empty;
          rest = sent.rest;
          all_read = sent.all_read;
        })))

pub serve_loop-Sent :
    (ms : List (List ℕ)) (fuel : ℕ) (r : Reading) (b : Broker) (h k i size : ℕ) (name : List ℕ)
    → AreMessages ms
    → length (stored ms) < fuel
    → Holding r []
    → Unread b.fs h k (stored ms)
    → HasBox b.boxes name i size
    → Returns (λ result b'. Sent b h k ms result b') (serve_loop fuel true (pos h) name r b)
serve_loop-Sent ms fuel r b h k i size name are enough holding u box =
    subst
      (λ t. Returns (λ result b'. Sent b h k t result b') (serve_loop fuel true (pos h) name r b))
      (due-pending ms)
      (serve_loop-Pending fuel (pending ms) r b h k i size name
        (omega (arith, ap length (unread-pending ms))) (pending-IsPending ms are)
        (subst (λ t. Holding r t) (sym (held-pending ms)) holding)
        (subst (λ t. Unread b.fs h k t) (sym (unread-pending ms)) u) box)
