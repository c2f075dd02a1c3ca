-- ===== src/Client.antt =====
-- The driver behind the ABI (src/client/rootherald_win.cpp) and the ABI (src/client/rootherald_client.cpp).
-- A call returns its status and what its out parameter holds then, `none` for a null pointer.
pub mod Status
pub mod Fields
pub mod DeviceId
pub mod Gather
pub mod Enroll
pub mod Evidence
pub mod Posture
pub mod Abi
pub mod Contexts
