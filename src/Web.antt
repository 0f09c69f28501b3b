-- ===== src/Web.antt =====
-- WebPluginConfigurator/src/WebPluginConfigurator.cpp: requests of the browser.
pub mod Parse
pub mod Socket
pub mod PluginId
pub mod Replace
pub mod Page
pub mod Process
