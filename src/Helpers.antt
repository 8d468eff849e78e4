-- ===== src/Helpers.antt =====
-- app/helpers/validation.go: the checks of phone numbers, names, country codes and locales.
pub mod Countries
pub mod Phones
pub mod Locales
pub mod Tables
