-- ===== src/Options.antt =====
-- options (src/options_helper.cpp): the text helpers.
pub mod Quotes
pub mod RelativeTime
