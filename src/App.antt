-- ===== src/App.antt =====
-- The programs of app/sys.
mod Tests
pub mod Bytes
pub mod Config
pub mod Net
pub mod Ubus
pub mod Usb
