-- ===== src/Config.antt =====
-- config.py: the configuration of a run, from the document, the command line and the environment.
pub mod Fields
pub mod Image
pub mod Slug
pub mod Catalog
pub mod Ports
pub mod Select
pub mod Document
pub mod Nodes
pub mod Settings
pub mod Choices
pub mod Load
pub mod Tests
