-- ===== src/Scraper.antt =====
-- scraper/scrape.js: the script that signs in to the employer's portal and submits the shifts.
pub mod Schedule
pub mod Answers
pub mod Job
pub mod Page
pub mod Script
mod Tests
