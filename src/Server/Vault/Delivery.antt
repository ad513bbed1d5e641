-- ===== src/Server/Vault/Delivery.antt =====
-- The way of the credentials from the form to the scraper.
use starbies_schedule_sync.Server.Scrapes
use starbies_schedule_sync.Server.Scrapes.{after_look_up, loaded, unless_fetched}
use starbies_schedule_sync.Server.Vault.{Vault}
