-- ===== src/Models.antt =====
-- app/models: the tags of the models' fields and the values of their columns. Reflection on a model
-- gives the list of its fields.
pub mod Tags
pub mod Readers
pub mod Lengths
pub mod Keys
pub mod Values
pub mod Times
