-- ===== src/Crawler.antt =====
-- The crate origin-crawler: the frontier of the pages to fetch.
pub mod Frontier
pub mod Robots
