-- ===== src/Http.antt =====
-- src/curl_http_transport.cpp: the HTTP transport that the app client of realm-core is given, over
-- libcurl.
pub mod Guard
pub mod Headers
pub mod Request
