-- ===== src/Manifest.antt =====
-- internal/manifest/manifest.go: the manifest of a plugin and what validation makes of its directory.
pub mod Validate
pub mod Valid
pub mod Reading
use agentreg.Base.{Text, Bool, List}

pub record Plugin : Type 0 where
  pub schema : Text
  pub name : Text
  pub version : Text
  pub description : Text
  pub homepage : Text
  pub repository : Text
  pub license : Text
  pub keywords : List Text
  pub author : Text

pub record Bundle : Type 0 where
  pub plugin : Plugin
  pub has_skills : Bool
  pub has_mcp : Bool
  pub skills : List Text
