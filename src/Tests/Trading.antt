-- ===== src/Tests/Trading.antt =====
-- Books, fills, estimates and balances on the small market.
use arb_system.Base.{
  ℕ, ◌-◌, ◌≡◌, ◌≢◌, refl, ◌⊎◌, inl, inr, Bool, true, false, Text, text, text_has, Option, some,
  none, List, [], ◌∷◌, Decimal, pos, whole, mul_dec, scale, ◌≤ℤ◌, ◌<ℤ◌, ◌-ℤ◌, ◌+ℤ◌, min_ℤ, max_ℤ,
  All, arith, if◌then◌else◌, pair_eq, upper, or_default, ltb, ◌≤◌, ◌↔◌,
}
use arb_system.Models.{
  Mode, Side, OrderStatus, UnifiedOrderState, OrderBookLevel, OrderBookSnapshot,
}
use arb_system.MarketData.Books
use arb_system.MarketData.Books.{Books, Queue, update, publish}
use arb_system.MarketData.Books.Laws.{IsBounded}
use arb_system.Accounts.Balances.{free, get, reserved_at, reserve, release_reserve}
use arb_system.Accounts.Balances.Laws.{free-reserve, free-release-reserve}
use arb_system.Strategy.Slippage.{walk, vwap_buy, vwap_sell, depth}
use arb_system.Strategy.Slippage.Depth.{IsLadder}
use arb_system.Strategy.Spread.{SpreadEstimate, estimate, evaluate_direction, buffer_bps}
use arb_system.Strategy.Spread.Laws.{evaluate_direction-tradable}
use arb_system.Execution.Policy.{levels_of, sum_within}
use arb_system.Execution.Submission.{IsFair}
use arb_system.Execution.PaperFill.{PaperEngine, no_fill, fill_order, simulate, dust}
use arb_system.Execution.PaperFill.Fills.{IsOffer, IsSorted}
use arb_system.Execution.PaperFill.Amounts.{cut_of, kept_of, simulate-within}
use arb_system.Execution.PaperFill.Orders.{IsGraded, IsTrue, simulate-IsTrue, fill_order-fok}
use arb_system.Execution.Router.{submit}
use arb_system.Execution.Router.Laws.{HasOffers, submit-IsFair}
use arb_system.Tests.Data.{
  btc, north, south, north_book, south_book, books, balances, an_intent, draw, calculator, fees,
}

abbrev pub engine : PaperEngine
engine = record { partial_fill_ratio = whole 1; fee_bps = whole 10; fee_model = some fees }

abbrev asks : List OrderBookLevel
asks = north_book.asks

asks-IsOffer : IsOffer asks
unfolding whole scale
asks-IsOffer = (omega arith, (omega arith, tt))

bids-IsOffer : IsOffer north_book.bids
unfolding whole scale
bids-IsOffer = (omega arith, (omega arith, tt))

asks-IsSorted : IsSorted Side.buy asks
unfolding whole scale
asks-IsSorted = ((omega arith, tt), (tt, tt))

two_positive : pos 0 <ℤ whole 2
unfolding whole scale
two_positive = omega arith

pub one_at_most : engine.partial_fill_ratio ≤ℤ whole 1
one_at_most = omega arith

book-found :
    (book : OrderBookSnapshot)
    → Books.get books north btc ≡ some book
    → IsOffer (levels_of Side.buy book)
unfolding Books.get arb_system.MarketData.Books.entry arb_system.Base.lookup
book-found book e = let same : book ≡ north_book = cc in rw same asks-IsOffer

simulate-IsTrue_example :
    (o : UnifiedOrderState) × ((simulate engine books (draw 1) an_intent (some balances)).0
      ≡ some o)
    × IsTrue an_intent o
    × (Books.get books north btc ≡ none → o.status ≡ OrderStatus.rejected)
    × ((book : OrderBookSnapshot) → Books.get books north btc ≡ some book → IsGraded o)
simulate-IsTrue_example =
    simulate-IsTrue engine books (draw 1) an_intent (some balances) two_positive one_at_most
      book-found refl

fill_order-fok_example :
    let f = fill_order engine true north_book an_intent in
    let whole_fill = fill_order engine false north_book an_intent in
    ((f ≡ no_fill (whole 2)) ⊎ (f.remaining ≤ℤ dust))
    ⊎ ((true ≡ true)
        × (an_intent.is_repair ≡ false)
        × (whole_fill.remaining ≤ℤ dust)
        × (f.filled ≡ mul_dec whole_fill.filled engine.partial_fill_ratio))
fill_order-fok_example = fill_order-fok engine true north_book an_intent refl

north-found : Books.get books north btc ≡ some north_book
unfolding Books.get arb_system.MarketData.Books.entry arb_system.Base.lookup
north-found = refl

simulate-within_example :
    (o : UnifiedOrderState) × ((simulate engine books (draw 1) an_intent (some balances)).0
      ≡ some o)
    × (o.filled
        ≡ cut_of engine false an_intent
            (kept_of an_intent (min_ℤ (whole 2) (sum_within Side.buy (whole 101) north_book.asks))))
simulate-within_example =
    simulate-within engine north_book an_intent (whole 101) refl two_positive asks-IsOffer
      asks-IsSorted books (draw 1) (some balances) north-found refl

pub both-IsOffer :
    (side : Side) (book : OrderBookSnapshot)
    → (book ≡ north_book) ⊎ (book ≡ south_book)
    → IsOffer (levels_of side book)
unfolding whole scale
both-IsOffer Side.buy book (inl e) = rw e (omega arith, (omega arith, tt))
both-IsOffer Side.buy book (inr e) = rw e (omega arith, (omega arith, tt))
both-IsOffer Side.sell book (inl e) = rw e (omega arith, (omega arith, tt))
both-IsOffer Side.sell book (inr e) = rw e (omega arith, (omega arith, tt))

picked :
    (hit other : Bool) (book : OrderBookSnapshot)
    → (if hit then some north_book else if other then some south_book else none) ≡ some book
    → (book ≡ north_book) ⊎ (book ≡ south_book)
picked true other book e = inl (cc)
picked false true book e = inr (cc)
picked false false book e = cc

books-known :
    (exchange symbol : Text) (book : OrderBookSnapshot)
    → Books.get books exchange symbol ≡ some book
    → (book ≡ north_book) ⊎ (book ≡ south_book)
unfolding Books.get arb_system.MarketData.Books.entry arb_system.Base.lookup
books-known exchange symbol book e =
    picked (pair_eq (north, btc) (exchange, symbol)) (pair_eq (south, btc) (exchange, symbol)) book
      (ground arith)

pub books-HasOffers : (n : ℕ) → HasOffers books
books-HasOffers n intent book e =
    both-IsOffer intent.side book (books-known intent.exchange intent.symbol book e)

submit-IsFair_example :
    IsFair (submit {L = ℕ} engine draw (λ _. books) (λ _ n. (none, n)) Mode.paper_trade)
submit-IsFair_example =
    submit-IsFair engine draw (λ _. books) (λ _ n. (none, n)) Mode.paper_trade (λ e. cc) one_at_most
      books-HasOffers

asks-IsLadder : IsLadder asks
unfolding whole scale
asks-IsLadder = (omega arith, (omega arith, tt))

bids-IsLadder : IsLadder north_book.bids
unfolding whole scale
bids-IsLadder = (omega arith, (omega arith, tt))

south_asks-IsLadder : IsLadder south_book.asks
unfolding whole scale
south_asks-IsLadder = (omega arith, (omega arith, tt))

south_bids-IsLadder : IsLadder south_book.bids
unfolding whole scale
south_bids-IsLadder = (omega arith, (omega arith, tt))

abbrev made : SpreadEstimate
made =
    estimate calculator btc north_book south_book (vwap_buy north_book (whole 2))
      (vwap_sell south_book (whole 2))

estimated : evaluate_direction calculator btc north_book south_book (whole 2) ≡ some made
unfolding evaluate_direction vwap_buy vwap_sell walk ◌+ℤ◌ ◌-ℤ◌ min_ℤ whole scale
    arb_system.Base.mul_dec arb_system.Base.div_dec arb_system.Base.round_div
estimated = refl

evaluate_direction-tradable_example :
    (made.max_tradable_base
      ≡ min_ℤ (min_ℤ (whole 2) (depth north_book.asks)) (min_ℤ (whole 2) (depth south_book.bids)))
    × (pos 0 <ℤ made.max_tradable_base)
    × (made.max_tradable_base ≤ℤ whole 2)
    × (made.buy_leg.effective_price ≢ pos 0)
    × (made.buffer_bps ≡ buffer_bps calculator)
evaluate_direction-tradable_example =
    evaluate_direction-tradable calculator btc north_book south_book (whole 2) two_positive
      asks-IsLadder bids-IsLadder south_asks-IsLadder south_bids-IsLadder estimated

abbrev asset : Text
asset = text "usdt"

two_nonneg : pos 0 ≤ℤ whole 2
unfolding whole
two_nonneg = omega arith

two_free : whole 2 ≤ℤ free balances north asset
unfolding free reserved_at get arb_system.Base.lookup whole scale arb_system.Base.◌-ℤ◌
    arb_system.Base.max_ℤ upper
two_free = omega arith

free-reserve_example : free (reserve north asset (whole 2) balances) north (text "USDT") ≡ (
    if pair_eq (north, upper asset) (north, upper (text "USDT"))
    then free balances north asset -ℤ whole 2
    else free balances north (text "USDT"))
free-reserve_example =
    free-reserve north asset north (text "USDT") (whole 2) balances two_nonneg two_free

nothing_reserved : pos 0 ≤ℤ reserved_at balances north asset
unfolding reserved_at arb_system.Base.lookup
nothing_reserved = omega arith

free-release-reserve_example :
    free
      (release_reserve north asset (whole 2) (reserve north asset (whole 2) balances))
      south
      (text "BTC")
    ≡ free balances south (text "BTC")
free-release-reserve_example =
    free-release-reserve north asset south (text "BTC") (whole 2) balances two_nonneg
      nothing_reserved

abbrev full_queue : Queue
full_queue = record { maxsize = 1; items = north_book ∷ [] }

full : IsBounded full_queue
full h = omega arith
