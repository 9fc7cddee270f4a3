-- ===== src/Client/Journal.antt =====
-- What the client writes to its journal.
use vwnet_lib.Base.{
  ℕ, zero, suc, ◌+◌, ◌<◌, ◌^◌, ◌≡◌, refl, sym, ap, ◌∙◌, inl, inr, ◌⊎◌, true, false, ◌||◌, List, [],
  ◌∷◌, ◌++◌, append-nil, append_assoc, arith, take, drop, take-append, take_all, drop-append,
  drop_all, length, length-append, ◌==◌, le→leb,
}
use vwnet_lib.Venues.Endian.Laws.{load_le-store_le, reverse_endian32-lt, reverse_endian32_twice}
use vwnet_lib.Venues.Messages.{
  feed_login, feed_logoff, query_reply_ok, query_reply_err, format_data32, PacketHeader,
  header_image, header_at,
}
use vwnet_lib.Net.State.{Sys}
use vwnet_lib.Net.Framing.{frame_loop, frames, frame_loop-step, frame_loop_idle}
use vwnet_lib.Client.State.{BseClient, on_client}
use vwnet_lib.Client.Process.{save_jnl, dispatch, process_step, process_data}

-- A message of the feed: its type and what follows its header.
pub record FeedMessage : Type 0 where
  pub type : ℕ
  pub body : List ℕ

abbrev header_of : FeedMessage → PacketHeader
header_of m = record { size = format_data32 (4 + length m.body); type = format_data32 m.type }

-- The bytes of a message: the size counts all but itself.
unfoldable pub feed_image : FeedMessage → List ℕ
feed_image m = header_image (header_of m) ++ m.body

abbrev pub feed_images : List FeedMessage → List ℕ
feed_images [] = []
feed_images (m ∷ msgs) = feed_image m ++ feed_images msgs

-- A message that is not an answer to the client, of a size that a header can give.
pub record IsFeed (m : FeedMessage) : Type 0 where
  pub type_fits : m.type < 2 ^ 32
  pub size_fits : 4 + length m.body < 2 ^ 32
  pub no_login : (m.type == feed_login) ≡ false
  pub no_logoff : (m.type == feed_logoff) ≡ false
  pub no_reply : (m.type == query_reply_err || m.type == query_reply_ok) ≡ false

abbrev pub AllFeed : List FeedMessage → Type 0
AllFeed [] = Unit {0}
AllFeed (m ∷ msgs) = IsFeed m × AllFeed msgs

length-feed_image : (m : FeedMessage) → length (feed_image m) ≡ 8 + length m.body
unfolding feed_image header_image
length-feed_image m = omega arith

header_at-feed_image :
    (m : FeedMessage) (rest : List ℕ) → header_at (feed_image m ++ rest) ≡ header_of m
unfolding header_at feed_image header_image format_data32
header_at-feed_image m rest = λ i. record {
  size = load_le-store_le 4 _ (reverse_endian32-lt (4 + length m.body)) i;
  type = load_le-store_le 4 _ (reverse_endian32-lt m.type) i;
}

format_data32_twice : (x : ℕ) → x < 2 ^ 32 → format_data32 (format_data32 x) ≡ x
unfolding format_data32
format_data32_twice x h = reverse_endian32_twice x h

take_image :
    (m : FeedMessage) (rest : List ℕ)
    → take (8 + length m.body) (feed_image m ++ rest) ≡ feed_image m
take_image m rest =
    take-append (8 + length m.body) (feed_image m) rest (omega (arith, length-feed_image m))
    ∙ take_all (8 + length m.body) (feed_image m) (omega (arith, length-feed_image m))

drop_image :
    (m : FeedMessage) (rest : List ℕ) → drop (8 + length m.body) (feed_image m ++ rest) ≡ rest
drop_image m rest =
    drop-append (8 + length m.body) (feed_image m) rest (omega (arith, length-feed_image m))
    ∙ ap (λ t. t ++ rest)
        (drop_all (8 + length m.body) (feed_image m) (omega (arith, length-feed_image m)))

-- The journal with more text.
abbrev pub journal : List ℕ → Sys BseClient → Sys BseClient
journal bytes s = on_client (λ a. record a { jnl_text = a.jnl_text ++ bytes }) s

dispatch_feed :
    (fd : ℕ) (m : FeedMessage) (rest : List ℕ) (s : Sys BseClient)
    → IsFeed m
    → s.app.jnl_open ≡ true
    → dispatch fd m.type (8 + length m.body) (feed_image m ++ rest) s ≡ journal (feed_image m) s
unfolding dispatch save_jnl
dispatch_feed fd m rest s f open_jnl =
    rw (f.no_login, f.no_logoff, f.no_reply, open_jnl, take_image m rest) refl

process_step_feed :
    (fd : ℕ) (m : FeedMessage) (rest : List ℕ) (s : Sys BseClient)
    → IsFeed m
    → s.app.jnl_open ≡ true
    → process_step fd (feed_image m ++ rest) s ≡ (8 + length m.body, journal (feed_image m) s)
unfolding process_step
process_step_feed fd m rest s f open_jnl =
    rw
      (
        header_at-feed_image m rest,
        size,
        type,
        le→leb 8 (length (feed_image m ++ rest)) (omega (arith, long)),
        le→leb (8 + length m.body) (length (feed_image m ++ rest)) (omega (arith, long)),
        dispatch_feed fd m rest s f open_jnl,
      )
      refl
  where
    size : format_data32 (format_data32 (4 + length m.body)) + 4 ≡ 8 + length m.body
    size = omega (arith, format_data32_twice (4 + length m.body) f.size_fits)

    type : format_data32 (format_data32 m.type) ≡ m.type
    type = format_data32_twice m.type f.type_fits

    long : length (feed_image m ++ rest) ≡ 8 + length m.body + length rest
    long = omega (arith, length-append (feed_image m) rest, length-feed_image m)

journal_loop :
    (f fd : ℕ) (msgs : List FeedMessage) (tail : List ℕ) (s : Sys BseClient)
    → AllFeed msgs
    → s.app.jnl_open ≡ true
    → ((t : Sys BseClient) → process_step fd tail t ≡ (0, t))
    → length (feed_images msgs ++ tail) < f
    → frame_loop (process_step fd) f (feed_images msgs ++ tail) s
      ≡ (length (feed_images msgs), journal (feed_images msgs) s)
journal_loop zero fd msgs tail s all open_jnl part h = absurd (omega arith)
journal_loop (suc f) fd [] tail s all open_jnl part h =
    frame_loop_idle (process_step fd) (suc f) tail s (part s)
    ∙ ap (λ t. (0, on_client (λ a. record a { jnl_text = t }) s)) (sym (append-nil s.app.jnl_text))
journal_loop (suc f) fd (m ∷ msgs) tail s (feed, all) open_jnl part h =
    rw
      (
        append_assoc (feed_image m) (feed_images msgs) tail,
        frame_loop-step (process_step fd) f (feed_image m ++ rest) s (omega (arith, long))
            (rw step (λ e. omega arith)),
        step,
        drop_image m rest,
        journal_loop f fd msgs tail (journal (feed_image m) s) all open_jnl part
            (omega (arith, long, whole)),
        append_assoc s.app.jnl_text (feed_image m) (feed_images msgs),
      )
      (ap (λ n. (n, journal (feed_images (m ∷ msgs)) s))
        (omega (arith, length-append (feed_image m) (feed_images msgs), length-feed_image m)))
  where
    rest : List ℕ
    rest = feed_images msgs ++ tail

    step : process_step fd (feed_image m ++ rest) s ≡ (8 + length m.body, journal (feed_image m) s)
    step = process_step_feed fd m rest s feed open_jnl

    long : length (feed_image m ++ rest) ≡ 8 + length m.body + length rest
    long = omega (arith, length-append (feed_image m) rest, length-feed_image m)

    whole : length (feed_images (m ∷ msgs) ++ tail) ≡ length (feed_image m ++ rest)
    whole = ap length (append_assoc (feed_image m) (feed_images msgs) tail)

-- The bytes are too few for a header, or for the message that it announces.
abbrev pub IsPartial : List ℕ → Type 0
IsPartial bytes = (length bytes < 8) ⊎ (length bytes < format_data32 (header_at bytes).size + 4)

pub IsPartial-process_step :
    (fd : ℕ) (bytes : List ℕ)
    → IsPartial bytes
    → (t : Sys BseClient) → process_step fd bytes t ≡ (0, t)
unfolding process_step
IsPartial-process_step fd bytes (inl few) t = ground arith
IsPartial-process_step fd bytes (inr few) t = ground arith

-- With its journal open, the client processes a run of feed messages and the beginning of a next one
-- by writing exactly the messages to the journal, whole and in order, and nothing else changes; what
-- it leaves is the beginning of the next.
pub process_data-feed_images :
    (fd : ℕ) (msgs : List FeedMessage) (tail : List ℕ) (s : Sys BseClient)
    → AllFeed msgs
    → s.app.jnl_open ≡ true
    → IsPartial tail
    → process_data fd (feed_images msgs ++ tail) s
      ≡ (length (feed_images msgs), journal (feed_images msgs) s)
unfolding process_data frames
process_data-feed_images fd msgs tail s all open_jnl part =
    journal_loop (suc (length (feed_images msgs ++ tail))) fd msgs tail s all open_jnl
      (IsPartial-process_step fd tail part) (omega arith)
