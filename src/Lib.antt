-- ===== src/Lib.antt =====
-- mini-world is a simulation of settlements whose agents work, trade and govern in a closed economy of
-- crowns. This library models the part of it that moves crowns, goods and merchants (internal/engine,
-- internal/economy, internal/agents, internal/world), the monitor that watches a run
-- (internal/sentinel), and the interventions of operators and of the gardener (internal/api,
-- internal/gardener), and proves what makes them correct.
--
-- The parts, their files and how they interact:
--   Base          numbers, lists, integers, machine words (uint64 wraps round), maps as association
--                 lists over any type of keys, and float64 as a parameter with named laws.
--   World         internal/world/hex.go: the hex grid and its metric; World.Route: `routeCost` and
--                 `terrainMoveCost` of internal/engine/market.go.
--   Model         the structs of internal/agents/types.go, needs.go and memory.go,
--                 internal/economy/goods.go and internal/social/settlement.go, with the fields that
--                 the modelled code reads or writes.
--   Ledger        the accounts of the simulation as a store: a pointer to an agent, a settlement or a
--                 faction is an index, so that two names of one agent are aliases; all crowns of the
--                 world are the sum of the accounts.
--   Market        one hour of a settlement's market: demandedGoods, surplusThreshold,
--                 crafterRecipeDemand (Market.Demand), ResolvePrice, SeasonalMarketMod, the price
--                 updates (Market.Prices), the matching loop (Market.Matching), and
--                 resolveSettlementMarket with resolveMarkets (Market.Resolve).
--   Satisfaction  clampAgentNeeds, ApplyDirectSatBump.
--   Treasury      collectTaxes, paySettlementWages, payGarrisonStipends, decayWealth, resolveBuyFood.
--   Merchant      the merchants of internal/engine/market.go: sellMerchantCargo, findDirectBuyer
--                 (Merchant.Sale), tier2Commission (Merchant.Commission), tier2MarketSell
--                 (Merchant.MarketSell), and of resolveMerchantTrade the purchase, the provisions and
--                 the arrival (Merchant.Purchase), the search (Merchant.Seek), one merchant's hour
--                 (Merchant.Turn) and the loop over the settlements (Merchant.Round).
--   Relations     the key of a pair and RecordInterSettlementTrade of internal/engine/relations.go,
--                 IsEmbargoed of internal/engine/peace.go; Relations.Peace: processPeace, RecordRaid and
--                 HasPeace of the same file.
--   Routes        internal/engine/trade_routes.go: processTradeRoutes and GetRouteBonus.
--   Governance    checkRevolution of internal/engine/governance.go.
--   RateLimiter   internal/api/ratelimit.go, with the clock as an argument.
--   Sentinel      internal/sentinel/alerts.go and AddSnapshot of state.go.
--   Memories      AddMemory of internal/agents/memory.go.
--   Clock         step, Run and SimTime of internal/engine/tick.go.
--   Simulation    EmitEvent and rebuildSettlementAgents of internal/engine/simulation.go,
--                 updateSettlementPopulations of internal/engine/perpetuation.go.
--   Interventions internal/engine/intervention.go: provisions, boosts, and the consolidation of a
--                 settlement (Interventions.Consolidate); Interventions.Api: adminOnly and
--                 handleIntervention of internal/api/server.go, which call them.
--   Gardener      enforceGuardrails of internal/gardener/decide.go, whose decisions
--                 internal/gardener/act.go posts to handleIntervention; Gardener.Triage: Triage of
--                 internal/gardener/triage.go, whose crisis level caps the decision.
--   Lifecycle     inheritWealth of internal/engine/simulation.go.
--   Providers     dispatch and callProvider of internal/llm/providers.go, rateLimit and doRequest of
--                 internal/llm/client.go.
--   Warfare       captureHex of internal/engine/warfare.go.
--   Factions      collectFactionDues and distributeFactionPatronage of internal/engine/factions.go.
--   Souls         AdjustCoherence, AdjustCoherenceUncapped and StateFromCoherence of
--                 internal/agents/soul.go.
--   Examples      concrete inputs, and the theorems applied to them.
--
-- How the code corresponds: a function of the code is a function here, a method that writes through
-- pointers takes the world and returns the next one, and a `range` loop is a recursion over the list
-- of what it visits, with the loop's variables as arguments; a map is visited in the order of its list,
-- which is arbitrary. `break` and `continue` are the branches that stop or go on. `int` is unbounded;
-- uint64, uint32, uint16 and uint8 arithmetic wraps round. A float32 is the float64 of the same value,
-- with the rounding of sums and of constants written out. Conversions of floats to integers are a
-- parameter too: where a theorem needs a rate to take no more than it is applied to, that is a law of the
-- floats (RateFits, FeeFits, PartFits, BudgetFits), and where it needs the conversions of a run to be
-- in range, a predicate on that run says which ones (TaxesFit of Treasury/Taxes/Range, WeekFits of
-- Factions/Crowns).
--
-- The walk of `routeCost` takes fuel, one more than the distance, since every step comes nearer by one.
-- The loop of CleanExpiredBoosts reads by position and runs once for each element that the slice had when
-- it began. All other loops are over lists. The loop of Run goes on until it is stopped, and is
-- taken for any number of ticks.
--
-- Not modelled: the rest of governance, relations, factions and warfare; crime, births and migration,
-- production and seasons; the prompts of the LLM client and the weather client, the other handlers of
-- the API server, the persistence, the rest of the gardener, the commands and the logging. The errors of
-- interventions stand for their texts, and the Meta maps of events, which repeat the arguments, are
-- left out.
pub mod Base
pub mod World
pub mod Model
pub mod Ledger
pub mod Satisfaction
pub mod Treasury
pub mod Market
pub mod Sentinel
pub mod Merchant
pub mod Routes
pub mod RateLimiter
pub mod Governance
pub mod Relations
pub mod Memories
pub mod Clock
pub mod Simulation
pub mod Interventions
pub mod Gardener
pub mod Lifecycle
pub mod Providers
pub mod Warfare
pub mod Factions
pub mod Souls
mod Examples
