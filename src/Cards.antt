-- ===== src/Cards.antt =====
-- Credit cards: utils/format-credit-card.ts, the form of add-credit-card.tsx, the page of
-- credit-card/index.tsx, and the cache tags of creditCardApi.ts.
pub mod Format
pub mod Form
pub mod List
