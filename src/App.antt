-- ===== src/App.antt =====
-- omni/src-tauri/src: the desktop application, which runs a daemon on a thread of its own, asks it
-- over the local channel, and announces the requests that wait.
pub mod Supervisor
pub mod Ipc
pub mod Notices
pub mod Tray
