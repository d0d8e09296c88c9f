-- ===== src/Http.antt =====
-- components/http_server: the web server's paths and the upload of a file.
pub mod Paths
pub mod Upload
