-- ===== src/Episodes/Causal.antt =====
-- An episode's winner and the time at which it is known, for `build` of
-- src/polymarket_bt/backtest/episodes.py.
use mathlib.Core.Option
use mathlib.Core.Option.{some-injective}
use polymarket_btc_15min_bac.Base.{
  ℕ, ◌≤◌, ◌≡◌, refl, Bool, true, false, Option, none, some, ◌⊎◌, inl, inr, max, leb, ◌==◌, ◌&&◌,
  Bool-cases, if-either, arith, if◌then◌else◌,
}
use polymarket_btc_15min_bac.Episodes.{
  WinnerSource, market_resolution, gamma, terminal_book, reference_price, ambiguous, Reference,
  MarketRow, Verdict, Episode, winner_from_terminal_book, winner_from_reference, is_either, nobody,
  named, inferred, inference, without_resolution, with_resolution, resolve_winner,
  received_or_window, resolution_available_time, join, build_episode, is_settled, is_dead,
  is_ambiguous,
}

abbrev IsOneOf : ℕ → ℕ → Option ℕ → Type 0
IsOneOf up down none = Unit
IsOneOf up down (some token) = (token ≡ up) ⊎ (token ≡ down)

-- Nobody, from no source, or one of the two tokens, from a source that is not ambiguous.
unfoldable pub IsVerdict : ℕ → ℕ → Verdict → Type 0
IsVerdict up down v =
    ((v.winner ≡ none) × (v.source ≡ ambiguous))
    ⊎ ((token : ℕ) × (v.winner ≡ some token)
        × ((token ≡ up) ⊎ (token ≡ down))
        × (is_ambiguous v.source ≡ false))

winner_from_terminal_book-IsOneOf :
    (up down : ℕ) (up_bid down_bid : Option ℕ)
    → IsOneOf up down (winner_from_terminal_book up down up_bid down_bid)
unfolding winner_from_terminal_book
winner_from_terminal_book-IsOneOf up down up_bid down_bid =
    if-either (IsOneOf up down) (is_settled up_bid && is_dead down_bid) (inl refl)
      (if-either (IsOneOf up down) (is_settled down_bid && is_dead up_bid) (inr refl) tt)

winner_from_reference-IsOneOf :
    (up down : ℕ) (reference : Option Reference)
    → IsOneOf up down (winner_from_reference up down reference)
unfolding winner_from_reference
winner_from_reference-IsOneOf up down none = tt
winner_from_reference-IsOneOf up down (some r) =
    if-either (λ token. (token ≡ up) ⊎ (token ≡ down)) (leb r.open_px r.close_px) (inl refl)
      (inr refl)

module _ (up down : ℕ) where
  nobody-IsVerdict : IsVerdict up down nobody
  unfolding IsVerdict
  nobody-IsVerdict = inl (refl, refl)

  named-IsVerdict :
      (token : ℕ) (source : WinnerSource) (confidence : ℕ)
      → is_ambiguous source ≡ false
      → (token ≡ up) ⊎ (token ≡ down)
      → IsVerdict up down (named token source confidence)
  unfolding IsVerdict
  named-IsVerdict token source confidence clear known = inr (token, refl, known, clear)

  inferred-IsVerdict :
      (book close : Option ℕ)
      → IsOneOf up down book
      → IsOneOf up down close
      → IsVerdict up down (inferred book close)
  inferred-IsVerdict none none p q = nobody-IsVerdict
  inferred-IsVerdict none (some close) p q = named-IsVerdict close reference_price 70 refl q
  inferred-IsVerdict (some book) none p q = named-IsVerdict book terminal_book 90 refl p
  inferred-IsVerdict (some book) (some close) p q =
      if-either (IsVerdict up down) (book == close) (named-IsVerdict book terminal_book 99 refl p)
        nobody-IsVerdict

  is_either-lem : (token : ℕ) → is_either up down token ≡ true → (token ≡ up) ⊎ (token ≡ down)
  is_either-lem token e = ground arith

  -- A named token is taken if it is one of the two, and the rest decides otherwise.
  checked-IsVerdict :
      (token : ℕ) (source : WinnerSource) (rest : Verdict)
      → is_ambiguous source ≡ false
      → IsVerdict up down rest
      → IsVerdict up down (if is_either up down token then named token source 100 else rest)
  checked-IsVerdict token source rest clear p = elim (Bool-cases (is_either up down token)) [
    | inl known ↦ rw known (named-IsVerdict token source 100 clear (is_either-lem token known))
    | inr other ↦ rw other p
  ]

inference-IsVerdict : (row : MarketRow) → IsVerdict row.up_token row.down_token (inference row)
unfolding inference
inference-IsVerdict row =
    inferred-IsVerdict row.up_token row.down_token _ _
      (winner_from_terminal_book-IsOneOf row.up_token row.down_token row.up_terminal.bid
        row.down_terminal.bid)
      (winner_from_reference-IsOneOf row.up_token row.down_token row.reference)

without_resolution-IsVerdict :
    (row : MarketRow) (winner : Option ℕ)
    → IsVerdict row.up_token row.down_token (without_resolution row winner)
without_resolution-IsVerdict row none = inference-IsVerdict row
without_resolution-IsVerdict row (some token) =
    checked-IsVerdict row.up_token row.down_token token gamma (inference row) refl
      (inference-IsVerdict row)

with_resolution-IsVerdict :
    (row : MarketRow) (winner : Option ℕ)
    → IsVerdict row.up_token row.down_token (with_resolution row winner)
with_resolution-IsVerdict row none = without_resolution-IsVerdict row row.gamma_winner
with_resolution-IsVerdict row (some token) =
    checked-IsVerdict row.up_token row.down_token token market_resolution nobody refl
      (nobody-IsVerdict row.up_token row.down_token)

-- The winner is nobody, from an ambiguous source, or one of the market's two tokens.
pub resolve_winner-IsVerdict :
    (row : MarketRow) → IsVerdict row.up_token row.down_token (resolve_winner row)
unfolding resolve_winner
resolve_winner-IsVerdict row =
    if-either (IsVerdict row.up_token row.down_token) row.resolution_conflict
      (nobody-IsVerdict row.up_token row.down_token)
      (with_resolution-IsVerdict row row.resolution_winner)

-- When the evidence of the source was received; the reference price has no time of its own.
abbrev pub evidence_time : MarketRow → WinnerSource → Option ℕ
evidence_time row market_resolution = row.resolution_received
evidence_time row gamma = row.gamma_received
evidence_time row terminal_book = join max row.up_terminal.received row.down_terminal.received
evidence_time row reference_price = none
evidence_time row ambiguous = none

-- No time, or one that the market's end precedes.
abbrev pub IsAfter : ℕ → Option ℕ → Type 0
IsAfter end_ns none = Unit
IsAfter end_ns (some time) = end_ns ≤ time

-- Evidence that has a time gives a time, and none before it.
abbrev pub Follows : Option ℕ → Option ℕ → Type 0
Follows none time = Unit
Follows (some received) time = (known : ℕ) × (time ≡ some known) × (received ≤ known)

abbrev available : ℕ → ℕ → MarketRow → WinnerSource → Option ℕ
available post_end_ns end_ns row source =
    resolution_available_time post_end_ns end_ns row.resolution_received row.gamma_received
      (join max row.up_terminal.received row.down_terminal.received) source

received_or_window-late :
    (post_end_ns end_ns received : ℕ) → end_ns ≤ received_or_window post_end_ns end_ns received
received_or_window-late post_end_ns end_ns received = ground arith

received_or_window-follows :
    (post_end_ns end_ns received : ℕ) → received ≤ received_or_window post_end_ns end_ns received
received_or_window-follows post_end_ns end_ns received = ground arith

map-IsAfter :
    (end_ns : ℕ) (f : ℕ → ℕ) (time : Option ℕ)
    → ((t : ℕ) → end_ns ≤ f t)
    → IsAfter end_ns (Option.map f time)
map-IsAfter end_ns f none late = tt
map-IsAfter end_ns f (some t) late = late t

map-Follows : (f : ℕ → ℕ) (time : Option ℕ) → ((t : ℕ) → t ≤ f t) → Follows time (Option.map f time)
map-Follows f none later = tt
map-Follows f (some t) later = (f t, refl, later t)

module _ (post_end_ns end_ns : ℕ) (row : MarketRow) where
  available-IsAfter :
      (source : WinnerSource) → IsAfter end_ns (available post_end_ns end_ns row source)
  unfolding resolution_available_time
  available-IsAfter market_resolution =
      map-IsAfter end_ns _ row.resolution_received (λ t. omega arith)
  available-IsAfter gamma =
      map-IsAfter end_ns _ row.gamma_received (received_or_window-late post_end_ns end_ns)
  available-IsAfter terminal_book =
      map-IsAfter end_ns _ (evidence_time row terminal_book)
        (received_or_window-late post_end_ns end_ns)
  available-IsAfter reference_price = omega arith
  available-IsAfter ambiguous = tt

  available-Follows :
      (source : WinnerSource)
      → Follows (evidence_time row source) (available post_end_ns end_ns row source)
  unfolding resolution_available_time
  available-Follows market_resolution = map-Follows _ row.resolution_received (λ t. omega arith)
  available-Follows gamma =
      map-Follows _ row.gamma_received (received_or_window-follows post_end_ns end_ns)
  available-Follows terminal_book =
      map-Follows _ (evidence_time row terminal_book)
        (received_or_window-follows post_end_ns end_ns)
  available-Follows reference_price = tt
  available-Follows ambiguous = tt

  available-ambiguous :
      {source : WinnerSource} → source ≡ ambiguous → available post_end_ns end_ns row source ≡ none
  unfolding resolution_available_time
  available-ambiguous e = rw e refl

-- No winner and no time of resolution, or a winner of the market and a time, if any, that neither
-- the market's end nor the receipt of the evidence comes after.
abbrev pub IsCausal : MarketRow → Episode → Type 0
IsCausal row e =
    ((e.winner_token_id ≡ none) × (e.resolution_received_utc_ns ≡ none))
    ⊎ ((token : ℕ) × (e.winner_token_id ≡ some token)
        × ((token ≡ row.up_token) ⊎ (token ≡ row.down_token))
        × IsAfter row.end_ns e.resolution_received_utc_ns
        × Follows (evidence_time row e.winner_source) e.resolution_received_utc_ns)

-- An episode without a winner has no time of resolution. Otherwise the winner is one of the market's
-- two tokens, its resolution is never before the market's end, and it is never before the receipt of
-- the lifecycle event, Gamma row or terminal books that named it, and known if they have a time.
pub build_episode-IsCausal :
    (post_end_ns : ℕ) (require_full_window : Bool) (row : MarketRow)
    → IsCausal row (build_episode post_end_ns require_full_window row)
unfolding build_episode IsVerdict
build_episode-IsCausal post_end_ns require_full_window row =
    let source = (resolve_winner row).source in
    elim (resolve_winner-IsVerdict row) [
      | inl (nothing, unclear) ↦
          inl (nothing, available-ambiguous post_end_ns row.end_ns row unclear)
      | inr (token, known, member, clear) ↦ inr (
        token,
        known,
        member,
        available-IsAfter post_end_ns row.end_ns row source,
        available-Follows post_end_ns row.end_ns row source,
      )
    ]
